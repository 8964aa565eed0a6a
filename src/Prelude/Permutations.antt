-- ===== src/Prelude/Permutations.antt =====
-- Permutations of lists: the library's relation, and the rearrangements that the queue needs.
use mathlib.Core.List.{List, ◌++◌, append_assoc, perm_append_comm}
use mathlib.Core.List.Perm
pub use mathlib.Core.List.{Perm}

module _ {ℓ} {A : Type ℓ} where
  pub perm_rotate :
      (front back rest : List A) → Perm ((front ++ back) ++ rest) ((front ++ rest) ++ back)
  perm_rotate front back rest =
      rw (append_assoc front back rest, append_assoc front rest back)
        (Perm.append_left front (perm_append_comm back rest))

  -- A part of the first list moves in front of the last ones.
  pub perm_move :
      (whole front back rest others : List A)
      → Perm whole (front ++ back)
      → Perm ((whole ++ rest) ++ others) ((front ++ rest) ++ (back ++ others))
  perm_move whole front back rest others p = rw (← append_assoc (front ++ rest) back others) (
      Perm.append_right others
        (Perm.trans (Perm.append_right rest p) (perm_rotate front back rest)))
