-- ===== src/Python/Exn.antt =====
-- Exceptions, and results of code that may raise one. `except Exception` catches all of these.
use lingo_async.Prelude.{ℕ, String, ◌≡◌, refl, ◌⊎◌, inl, inr}

-- `http_status` is httpx.HTTPStatusError with the response's code, `transport` an
-- httpx.TransportError, `http_other` any other httpx.HTTPError, `circuit_open` CircuitOpenError,
-- `client_error` botocore's ClientError. The text of `other` names an exception outside these.
pub data Exn : Type 0 where
  http_status : ℕ → Exn
  transport http_other circuit_open client_error value_error other : String → Exn
  key_error : String → Exn
  attribute_error type_error overflow_error assertion_error : Exn

pub data Result {ℓ} (A : Type ℓ) : Type ℓ where
  ok : A → Result A
  err : Exn → Result A

infixl 5 ◌>>=◌
abbrev pub ◌>>=◌ {ℓ κ} : {A : Type ℓ} {B : Type κ} → Result A → (A → Result B) → Result B
ok a >>= f = f a
err e >>= f = err e

pub Result-cases {ℓ} :
    {A : Type ℓ} (r : Result A) → ((a : A) × (r ≡ ok a)) ⊎ ((e : Exn) × (r ≡ err e))
Result-cases (ok a) = inl (a, refl)
Result-cases (err e) = inr (e, refl)

pub ok-injective {ℓ} : {A : Type ℓ} {a b : A} → ok a ≡ ok b → a ≡ b
ok-injective e = cc

pub err-ok {ℓ} : {A : Type ℓ} {x : Exn} {a : A} → err x ≡ ok a → ⊥
err-ok e = cc

pub bind-ok {ℓ κ} :
    {A : Type ℓ} {B : Type κ} (r : Result A) {f : A → Result B} {b : B}
    → (r >>= f) ≡ ok b
    → (a : A) × (r ≡ ok a) × (f a ≡ ok b)
bind-ok (ok a) e = (a, refl, e)
bind-ok (err e) raised = absurd (err-ok raised)
