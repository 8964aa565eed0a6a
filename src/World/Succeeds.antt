-- ===== src/World/Succeeds.antt =====
-- Computations that return, and what they return, as long as a property of the world holds.
use lingo_async.Prelude.{◌≡◌, refl, Bool, true, false, if◌then◌else◌}
use lingo_async.Python.Exn.{Result, ok}
use lingo_async.World.{World, M, pure, lift, ◌>>=◌}

-- From a world with `I` the computation returns a value with `P` and leaves a world with `I`.
pub record Success {A : Type 0} (I : World → Type 0) (P : A → Type 0) (m : M A) (w : World)
    : Type 0 where
  pub value : A
  pub returned : (m w).0 ≡ ok value
  pub good : P value
  pub after : I (m w).1

-- No demand on the value.
abbrev pub Any : {A : Type 0} → A → Type 0
Any _ = Unit {0}

unfoldable pub Succeeds : {A : Type 0} → (World → Type 0) → (A → Type 0) → M A → Type 0
Succeeds I P m = (w : World) → I w → Success I P m w

module _ (I : World → Type 0) {A : Type 0} (P : A → Type 0) where
  pub Succeeds-pure : (a : A) → P a → Succeeds I P (pure a)
  unfolding Succeeds
  Succeeds-pure a p w i = record { value = a; returned = refl; good = p; after = i }

  pub Succeeds-lift : (r : Result A) (a : A) → r ≡ ok a → P a → Succeeds I P (lift r)
  unfolding Succeeds
  Succeeds-lift r a e p w i = record { value = a; returned = e; good = p; after = i }

  pub Succeeds-bind :
      {B : Type 0} (Q : B → Type 0) (m : M B) (f : B → M A)
      → Succeeds I Q m
      → ((b : B) → Q b → Succeeds I P (f b))
      → Succeeds I P (m >>= f)
  unfolding Succeeds
  Succeeds-bind Q m f hm hf w i =
      let first = hm w i in
      let second = hf first.value first.good (m w).1 first.after in
      record {
        value = second.value;
        returned = rw (first.returned, ◌>>=◌) second.returned;
        good = second.good;
        after = rw (first.returned, ◌>>=◌) second.after;
      }

  pub Succeeds-if :
      (b : Bool) (m n : M A)
      → (b ≡ true → Succeeds I P m)
      → (b ≡ false → Succeeds I P n)
      → Succeeds I P (if b then m else n)
  Succeeds-if true m n hm hn = hm refl
  Succeeds-if false m n hm hn = hn refl
