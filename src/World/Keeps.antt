-- ===== src/World/Keeps.antt =====
-- Computations that leave the number of effects of one kind as it was.
use lingo_async.Prelude.{ℕ, ◌≡◌, ◌∙◌, refl, inl, inr, Bool, true, false, if◌then◌else◌, count}
use lingo_async.Python.Exn.{Result, Result-cases}
use lingo_async.World.{Effect, opened, closed, slept, read_clock, World, M, pure, lift, ◌>>=◌}

-- The kinds of effect that neither ask lingo-core nor write a leaderboard are not counted.
pub record IsQuiet (p : Effect → Bool) : Type 0 where
  pub opening : p opened ≡ false
  pub closing : p closed ≡ false
  pub sleeping : (d : ℕ) → p (slept d) ≡ false
  pub clock : p read_clock ≡ false

abbrev pub counted : (Effect → Bool) → World → ℕ
counted p w = count p w.trace

unfoldable pub Keeps {ℓ} : {A : Type ℓ} → (Effect → Bool) → M A → Type 0
Keeps p m = (w : World) → counted p (m w).1 ≡ counted p w

pub Keeps-lift {ℓ} : {A : Type ℓ} (p : Effect → Bool) (r : Result A) → Keeps p (lift r)
unfolding Keeps
Keeps-lift p r w = refl

pub Keeps-pure {ℓ} : {A : Type ℓ} (p : Effect → Bool) (a : A) → Keeps p (pure a)
unfolding Keeps
Keeps-pure p a w = refl

pub counted_bind {ℓ κ} :
    {A : Type ℓ} {B : Type κ} (p : Effect → Bool) (m : M A) (f : A → M B) (w : World)
    → ((a : A) → Keeps p (f a))
    → counted p ((m >>= f) w).1 ≡ counted p (m w).1
unfolding Keeps
counted_bind p m f w kf = elim (Result-cases (m w).0) [
  | inl (a, e) ↦ rw (e, ◌>>=◌) (kf a (m w).1)
  | inr (x, e) ↦ rw (e, ◌>>=◌) refl
]

pub Keeps-bind {ℓ κ} :
    {A : Type ℓ} {B : Type κ} (p : Effect → Bool) (m : M A) (f : A → M B)
    → Keeps p m
    → ((a : A) → Keeps p (f a))
    → Keeps p (m >>= f)
unfolding Keeps
Keeps-bind p m f km kf w = counted_bind p m f w kf ∙ km w

pub Keeps-if {ℓ} :
    {A : Type ℓ} (p : Effect → Bool) (b : Bool) (m n : M A)
    → Keeps p m
    → Keeps p n
    → Keeps p (if b then m else n)
Keeps-if p true m n km kn = km
Keeps-if p false m n km kn = kn

pub counted_if {ℓ} :
    {A : Type ℓ} (p : Effect → Bool) (n : ℕ) (b : Bool) (r s : Result A × World)
    → counted p r.1 ≡ n
    → counted p s.1 ≡ n
    → counted p (if b then r else s).1 ≡ n
counted_if p n true r s hr hs = hr
counted_if p n false r s hr hs = hs
