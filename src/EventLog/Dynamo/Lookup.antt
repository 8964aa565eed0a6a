-- ===== src/EventLog/Dynamo/Lookup.antt =====
-- What a lookup by id finds after the calls of app/db/dynamo/events.py.
use lingo_async.Prelude.{
  ℕ, ◌+◌, String, ◌≡◌, refl, Bool, true, false, Option, none, some, [], ◌∷◌, arith, ◌==◌, eq_iff,
  eq_refl, if◌then◌else◌, subst, if_either, ◌∙◌,
}
use lingo_async.EventLog.{StatusArgs}
use lingo_async.EventLog.Dynamo.{Item, Table, has_key, put, with_status, update_at}

-- The first item with the id.
unfoldable pub find_item : String → Table → Option Item
find_item id [] = none
find_item id (item ∷ items) = if item.id == id then some item else find_item id items

-- How many items have the id.
unfoldable pub copies : String → Table → ℕ
copies id [] = 0
copies id (item ∷ items) = (if item.id == id then 1 else 0) + copies id items

-- Whether an item has the key.
unfoldable pub holds : String → String → Table → Bool
holds pk sk [] = false
holds pk sk (item ∷ items) = if has_key pk sk item then true else holds pk sk items

-- No two items have the same key, as the table's schema has it.
abbrev pub Keyed : Table → Type 0
Keyed [] = Unit
Keyed (item ∷ items) = (holds item.pk item.sk items ≡ false) × Keyed items

abbrev pub item_or : Option Item → Option Item → Option Item
item_or none o = o
item_or (some item) _ = some item

abbrev pub updated_item_if : Bool → StatusArgs → Option Item → Option Item
updated_item_if b a none = none
updated_item_if b a (some item) = some (if b then with_status a item else item)

has_key_self : (item : Item) → has_key item.pk item.sk item ≡ true
has_key_self item = ground (arith, eq_refl item.pk, eq_refl item.sk)

has_key-sym : (x y : Item) → has_key x.pk x.sk y ≡ has_key y.pk y.sk x
has_key-sym x y =
    ground (arith, eq_iff x.pk y.pk, eq_iff y.pk x.pk, eq_iff x.sk y.sk, eq_iff y.sk x.sk)

not_held :
    (pk sk : String) (x : Item) (items : Table)
    → holds pk sk (x ∷ items) ≡ false
    → (has_key pk sk x ≡ false) × (holds pk sk items ≡ false)
unfolding holds
not_held pk sk x items h = (ground arith, ground arith)

-- The put of an item with a new key adds it.
pub find-put :
    (j : String) (item : Item) (items : Table)
    → holds item.pk item.sk items ≡ false
    → find_item j (put item items)
      ≡ item_or (find_item j items) (if item.id == j then some item else none)
unfolding find_item put holds
find-put j item [] h = refl
find-put j item (x ∷ items) h =
    let (other, rest) = not_held item.pk item.sk x items h in
    rw (other) (ground (arith, find-put j item items rest))

pub copies-put :
    (j : String) (item : Item) (items : Table)
    → holds item.pk item.sk items ≡ false
    → copies j (put item items) ≡ copies j items + (if item.id == j then 1 else 0)
unfolding copies put holds
copies-put j item [] h = ground arith
copies-put j item (x ∷ items) h =
    let (other, rest) = not_held item.pk item.sk x items h in
    rw (other) (omega (arith, copies-put j item items rest))

holds-put :
    (pk sk : String) (item : Item) (items : Table)
    → holds item.pk item.sk items ≡ false
    → has_key pk sk item ≡ false
    → holds pk sk items ≡ false
    → holds pk sk (put item items) ≡ false
unfolding put holds
holds-put pk sk item [] h n m = ground arith
holds-put pk sk item (x ∷ items) h n m =
    let (other, rest) = not_held item.pk item.sk x items h in
    let (other', rest') = not_held pk sk x items m in
    rw (other, other') (ground (arith, holds-put pk sk item items rest n rest'))

found_is_held :
    (id pk sk : String) (items : Table) (base : Item)
    → find_item id items ≡ some base
    → holds pk sk items ≡ false
    → has_key pk sk base ≡ false
unfolding find_item holds
found_is_held id pk sk [] base e h = cc
found_is_held id pk sk (x ∷ items) base e h =
    let (other, rest) = not_held pk sk x items h in
    if_either (λ (o : Option Item). o ≡ some base → has_key pk sk base ≡ false) (x.id == id)
      (some x) (find_item id items)
      (λ _ e. let same : x ≡ base = cc in subst (λ y. has_key pk sk y ≡ false) same other)
      (λ _ e. found_is_held id pk sk items base e rest) e

updated_item-false :
    (b : Bool) (a : StatusArgs) (o : Option Item) → b ≡ false → updated_item_if b a o ≡ o
updated_item-false b a none h = refl
updated_item-false b a (some item) h = rw (h) refl

-- The update of the item found for an id changes what is found for that id and for no other.
pub find-update_at :
    (a : StatusArgs) (j : String) (items : Table) (base : Item)
    → Keyed items
    → find_item a.id items ≡ some base
    → find_item j (update_at a base.pk base.sk items)
      ≡ updated_item_if (a.id == j) a (find_item j items)
unfolding find_item update_at
find-update_at a j [] base k e = cc
find-update_at a j (x ∷ items) base k e =
    if_either
      (λ (o : Option Item).
        o ≡ some base
        → find_item j (
            if has_key base.pk base.sk x
            then with_status a x ∷ items
            else x ∷ update_at a base.pk base.sk items)
          ≡ updated_item_if (a.id == j) a (if x.id == j then some x else find_item j items))
      (x.id == a.id) (some x) (find_item a.id items)
      (λ hit e.
        let same : x ≡ base = cc in
        let key : has_key base.pk base.sk x ≡ true =
          subst (λ y. has_key y.pk y.sk x ≡ true) same (has_key_self x) in
        rw (key) (
          ground (
            arith,
            hit,
            eq_iff x.id a.id,
            eq_iff x.id j,
            eq_iff a.id j,
            updated_item-false (a.id == j) a (find_item j items),
          )))
      (λ miss e.
        let other : has_key base.pk base.sk x ≡ false =
          has_key-sym base x ∙ found_is_held a.id x.pk x.sk items base e k.0 in
        rw (other) (
          ground (
            arith,
            miss,
            eq_iff x.id a.id,
            eq_iff x.id j,
            eq_iff a.id j,
            find-update_at a j items base k.1 e,
          )))
      e

holds-update_at :
    (a : StatusArgs) (pk sk pk' sk' : String) (items : Table)
    → holds pk sk (update_at a pk' sk' items) ≡ holds pk sk items
unfolding holds update_at
holds-update_at a pk sk pk' sk' [] = refl
holds-update_at a pk sk pk' sk' (x ∷ items) = ground (arith, holds-update_at a pk sk pk' sk' items)

pub Keyed-put :
    (item : Item) (items : Table)
    → Keyed items
    → holds item.pk item.sk items ≡ false
    → Keyed (put item items)
unfolding put holds
Keyed-put item [] k h = (refl, tt)
Keyed-put item (x ∷ items) k h =
    let (other, rest) = not_held item.pk item.sk x items h in
    rw (other) (
      holds-put x.pk x.sk item items rest (has_key-sym x item ∙ other) k.0,
      Keyed-put item items k.1 rest,
    )

pub Keyed-update_at :
    (a : StatusArgs) (pk sk : String) (items : Table)
    → Keyed items
    → Keyed (update_at a pk sk items)
unfolding update_at
Keyed-update_at a pk sk [] k = tt
Keyed-update_at a pk sk (x ∷ items) k =
    if_either Keyed (has_key pk sk x) (with_status a x ∷ items) (x ∷ update_at a pk sk items)
      (λ _. k)
      (λ _. (holds-update_at a x.pk x.sk pk sk items ∙ k.0, Keyed-update_at a pk sk items k.1))

pub copies-none : (id : String) (items : Table) → find_item id items ≡ none → copies id items ≡ 0
unfolding find_item copies
copies-none id [] e = refl
copies-none id (x ∷ items) e =
    if_either (λ (o : Option Item). o ≡ none → (if x.id == id then 1 else 0) + copies id items ≡ 0)
      (x.id == id) (some x) (find_item id items) (λ _ e. absurd (some-none e))
      (λ miss e. rw (miss) (omega (arith, copies-none id items e))) e
  where
    some-none : {x : Item} → some x ≡ none → ⊥
    some-none e = cc
