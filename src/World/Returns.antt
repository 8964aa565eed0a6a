-- ===== src/World/Returns.antt =====
-- What is known of the value that a computation returns, in whatever world it starts.
use lingo_async.Prelude.{◌≡◌, subst, refl, inl, inr, Bool, true, false, if◌then◌else◌}
use lingo_async.Python.Exn.{Exn, Result, ok, err, Result-cases}
use lingo_async.World.{World, M, pure, lift, ◌>>=◌}

unfoldable pub Returns {ℓ κ} : {A : Type ℓ} → (A → Type κ) → M A → Type (ℓ ⊔ κ)
Returns {A = A} P m = (w : World) (a : A) → (m w).0 ≡ ok a → P a

err-ok {ℓ} : {A : Type ℓ} {x : Exn} {a : A} → (err x ≡ ok a) → ⊥
err-ok e = cc

module _ {ℓ κ} {A : Type ℓ} (P : A → Type κ) where
  pub Returns-pure : (a : A) → P a → Returns P (pure a)
  unfolding Returns
  Returns-pure a h w b e = subst P (cc) h

  pub Returns-then {ι μ} :
      {B : Type ι} (Q : B → Type μ) (m : M B) (f : B → M A)
      → Returns Q m
      → ((b : B) → Q b → Returns P (f b))
      → Returns P (m >>= f)
  unfolding Returns
  Returns-then Q m f hm h w a e = elim (Result-cases (m w).0) [
    | inl (b, f_e) ↦ h b (hm w b f_e) (m w).1 a (rw (f_e, ◌>>=◌) at e)
    | inr (x, f_e) ↦ absurd (err-ok (rw (f_e, ◌>>=◌) at e))
  ]

  pub Returns-bind {ι} :
      {B : Type ι} (m : M B) (f : B → M A) → ((b : B) → Returns P (f b)) → Returns P (m >>= f)
  unfolding Returns
  Returns-bind m f h = Returns-then (λ _. Unit {0}) m f (λ _ _ _. tt) (λ b _. h b)

  pub Returns-lift {ι} :
      {B : Type ι} (r : Result B) (f : B → M A)
      → ((b : B) → r ≡ ok b → Returns P (f b))
      → Returns P (lift r >>= f)
  unfolding Returns
  Returns-lift (ok b) f h w a e = h b refl w a e
  Returns-lift (err x) f h w a e = cc

  pub Returns-if :
      (b : Bool) (m n : M A)
      → (b ≡ true → Returns P m)
      → (b ≡ false → Returns P n)
      → Returns P (if b then m else n)
  Returns-if true m n hm hn = hm refl
  Returns-if false m n hm hn = hn refl
