-- ===== src/World/Gains.antt =====
-- Computations that add to a count at least what their value is worth.
use lingo_async.Prelude.{ℕ, ◌+◌, ◌≤◌, ◌≡◌, inl, inr, Bool, true, false, if◌then◌else◌, arith}
use lingo_async.Python.Exn.{Result, ok, Result-cases, err-ok}
use lingo_async.World.{Effect, World, M, pure, lift, ◌>>=◌}
use lingo_async.World.Keeps.{counted}

ok-worth {ℓ} : {A : Type ℓ} (g : A → ℕ) {x y : A} → ok x ≡ ok y → g x ≡ g y
ok-worth g e = cc

module _ (p : Effect → Bool) where
  -- The value is worth at most what has been added, and `k` more.
  unfoldable pub Gains {ℓ} : {A : Type ℓ} → (A → ℕ) → ℕ → M A → Type ℓ
  Gains {A = A} g k m =
      (w : World) (a : A) → (m w).0 ≡ ok a → g a + counted p w ≤ k + counted p (m w).1

  pub Gains-pure {ℓ} : {A : Type ℓ} (g : A → ℕ) (k : ℕ) (a : A) → g a ≤ k → Gains g k (pure a)
  unfolding Gains
  Gains-pure g k a le w b e = omega (arith, le, ok-worth g e)

  pub Gains-lift {ℓ} : {A : Type ℓ} (k : ℕ) (r : Result A) → Gains (λ _. k) k (lift r)
  unfolding Gains
  Gains-lift k r w a e = omega arith

  pub Gains-bind {ℓ κ} :
      {A : Type ℓ} {B : Type κ} (g : A → ℕ) (f : B → ℕ) (k : ℕ) (m : M B) (n : B → M A)
      → Gains f k m
      → ((b : B) → Gains g (f b) (n b))
      → Gains g k (m >>= n)
  unfolding Gains
  Gains-bind g f k m n gm gn w a e = elim (Result-cases (m w).0) [
    | inl (b, m_e) ↦
        rw (m_e, ◌>>=◌) (omega (arith, gm w b m_e, gn b (m w).1 a (rw (m_e, ◌>>=◌) at e)))
    | inr (x, m_e) ↦ absurd (err-ok (rw (m_e, ◌>>=◌) at e))
  ]

  pub Gains-if {ℓ} :
      {A : Type ℓ} (g : A → ℕ) (k : ℕ) (b : Bool) (m n : M A)
      → Gains g k m
      → Gains g k n
      → Gains g k (if b then m else n)
  Gains-if g k true m n gm gn = gm
  Gains-if g k false m n gm gn = gn

  pub Gains-more {ℓ} :
      {A : Type ℓ} (g : A → ℕ) (j : ℕ) (m : M A) → Gains g 0 m → Gains (λ a. j + g a) j m
  unfolding Gains
  Gains-more g j m gm w a e = omega (arith, gm w a e)
