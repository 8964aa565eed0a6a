-- ===== src/World/Preserves.antt =====
-- Computations that keep a property of the world.
use lingo_async.Prelude.{inl, inr, Bool, true, false, if◌then◌else◌}
use lingo_async.Python.Exn.{Result, Result-cases}
use lingo_async.World.{World, M, pure, lift, ◌>>=◌}

unfoldable pub Preserves {ℓ κ} : {A : Type ℓ} → (World → Type κ) → M A → Type κ
Preserves I m = (w : World) → I w → I (m w).1

module _ {κ} (I : World → Type κ) where
  pub Preserves-pure {ℓ} : {A : Type ℓ} (a : A) → Preserves I (pure a)
  unfolding Preserves
  Preserves-pure a w h = h

  pub Preserves-lift {ℓ} : {A : Type ℓ} (r : Result A) → Preserves I (lift r)
  unfolding Preserves
  Preserves-lift r w h = h

  pub Preserves-bind {ℓ ι} :
      {A : Type ℓ} {B : Type ι} (m : M A) (f : A → M B)
      → Preserves I m
      → ((a : A) → Preserves I (f a))
      → Preserves I (m >>= f)
  unfolding Preserves
  Preserves-bind m f hm hf w h = elim (Result-cases (m w).0) [
    | inl (a, e) ↦ rw (e, ◌>>=◌) (hf a (m w).1 (hm w h))
    | inr (x, e) ↦ rw (e, ◌>>=◌) (hm w h)
  ]

  pub Preserves-if {ℓ} :
      {A : Type ℓ} (b : Bool) (m n : M A)
      → Preserves I m
      → Preserves I n
      → Preserves I (if b then m else n)
  Preserves-if true m n hm hn = hm
  Preserves-if false m n hm hn = hn
