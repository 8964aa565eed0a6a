-- ===== src/EventLog/Dynamo/Keys.antt =====
-- The sort keys of app/db/dynamo/events.py name the id of their item.
use lingo_async.Prelude.{
  ℕ, ◌/◌, ◌%◌, ◌≡◌, refl, String, ◌<>◌, Bool, true, false, arith, eqb, if◌then◌else◌, if_either,
  All, Option, none, some, [], ◌∷◌, ◌==◌, eq_iff, ap, sym, ◌∙◌, Bool-cases, inl, inr,
}
use Prim.Native.Char.{char, code}
use text.Mathlib.TextLemmas.{nil-append, cons-append, append_assoc}
use lingo_async.Python.Calendar.{digit, two_digits, four_digits, fraction, isoformat}
use lingo_async.World.{DateTime}
use lingo_async.EventLog.{SaveArgs, StatusArgs}
use lingo_async.EventLog.Dynamo.{Item, Table, sk_of, new_item, has_key, put, update_at, with_status}
use lingo_async.EventLog.Dynamo.Lookup.{find_item, holds}

-- What follows the first '#'.
unfoldable pub after_hash : String → String
after_hash String.[] = ""
after_hash (String.◌∷◌ c s) = let rest = after_hash s in if eqb (code c) 35 then s else rest

abbrev pub NoHash : String → Type 0
NoHash String.[] = Unit {0}
NoHash (String.◌∷◌ c s) = (eqb (code c) 35 ≡ false) × NoHash s

NoHash-append : (s t : String) → NoHash s → NoHash t → NoHash (s <> t)
NoHash-append String.[] t hs ht = rw (nil-append t) ht
NoHash-append (String.◌∷◌ c s) t hs ht = rw (cons-append c s t) (hs.0, NoHash-append s t hs.1 ht)

after_hash-append : (s t : String) → NoHash s → after_hash (s <> t) ≡ after_hash t
unfolding after_hash
after_hash-append String.[] t h = rw (nil-append t) refl
after_hash-append (String.◌∷◌ c s) t h =
    rw (cons-append c s t, h.0, after_hash) (after_hash-append s t h.1)

pick : (b : Bool) (x y : String) → NoHash x → NoHash y → NoHash (if b then x else y)
pick b x y hx hy = if_either NoHash b _ _ (λ _. hx) (λ _. hy)

NoHash-digit : (n : ℕ) → NoHash (digit n)
NoHash-digit n =
    pick (eqb n 0) _ _ (refl, tt)
      (pick (eqb n 1) _ _ (refl, tt)
        (pick (eqb n 2) _ _ (refl, tt)
          (pick (eqb n 3) _ _ (refl, tt)
            (pick (eqb n 4) _ _ (refl, tt)
              (pick (eqb n 5) _ _ (refl, tt)
                (pick (eqb n 6) _ _ (refl, tt)
                  (pick (eqb n 7) _ _ (refl, tt) (pick (eqb n 8) _ _ (refl, tt) (refl, tt)))))))))

NoHash-two_digits : (n : ℕ) → NoHash (two_digits n)
unfolding two_digits
NoHash-two_digits n =
    NoHash-append (digit (n / 10 % 10)) (digit (n % 10)) (NoHash-digit (n / 10 % 10))
      (NoHash-digit (n % 10))

NoHash-four_digits : (n : ℕ) → NoHash (four_digits n)
unfolding four_digits
NoHash-four_digits n =
    NoHash-append (two_digits (n / 100)) (two_digits (n % 100)) (NoHash-two_digits (n / 100))
      (NoHash-two_digits (n % 100))

NoHash-fraction : (us : ℕ) → NoHash (fraction us)
NoHash-fraction us =
    if_either NoHash (eqb us 0) _ _ (λ _. tt)
      (λ _.
        NoHash-append "." _ (refl, tt)
          (NoHash-append (two_digits (us / 10000)) (four_digits (us % 10000))
            (NoHash-two_digits (us / 10000)) (NoHash-four_digits (us % 10000))))

-- A mark, two digits and the rest.
mark :
    (sign : String)
    → NoHash sign
    → (n : ℕ) (rest : String) → NoHash rest
    → NoHash (sign <> (two_digits n <> rest))
mark sign plain n rest h =
    NoHash-append sign (two_digits n <> rest) plain
      (NoHash-append (two_digits n) rest (NoHash-two_digits n) h)

offset : NoHash "+00:00"
offset = (refl, (refl, (refl, (refl, (refl, (refl, tt))))))

pub NoHash-isoformat : (t : DateTime) → NoHash (isoformat t)
unfolding isoformat
NoHash-isoformat t = NoHash-append (four_digits t.year) _ (NoHash-four_digits t.year) (
    mark "-" (refl, tt) t.month _
      (mark "-" (refl, tt) t.day _
        (mark "T" (refl, tt) t.hour _
          (mark ":" (refl, tt) t.minute _
            (mark ":" (refl, tt) t.second _
              (NoHash-append (fraction t.microsecond) "+00:00" (NoHash-fraction t.microsecond)
                offset))))))

after_hash-hash : (t : String) → after_hash ("#" <> t) ≡ t
unfolding after_hash
after_hash-hash t = rw (cons-append (char 35 tt) "" t, nil-append t) refl

pub after_hash-sk :
    (received_at id : String)
    → NoHash received_at
    → after_hash (after_hash (sk_of received_at id)) ≡ id
after_hash-sk received_at id h = rw (append_assoc "EVENT" "#" (received_at <> ("#" <> id))) (
    rw (after_hash-append "EVENT" ("#" <> (received_at <> ("#" <> id))) plain_event) (
      rw (after_hash-hash (received_at <> ("#" <> id)), after_hash-append received_at ("#" <> id) h)
        (after_hash-hash id)))
  where
    plain_event : NoHash "EVENT"
    plain_event = (refl, (refl, (refl, (refl, (refl, tt)))))

abbrev pub NamesItsId : Item → Type 0
NamesItsId item = after_hash (after_hash item.sk) ≡ item.id

-- The sort key of every item names the item's id.
abbrev pub Named : Table → Type 0
Named = All NamesItsId

pub new_item-NamesItsId : (a : SaveArgs) → NoHash a.received_at → NamesItsId (new_item a)
new_item-NamesItsId a h = after_hash-sk a.received_at a.id h

pub Named-put :
    (item : Item) (items : Table) → NamesItsId item → Named items → Named (put item items)
unfolding put
Named-put item [] n ns = (n, tt)
Named-put item (x ∷ items) n ns =
    if_either Named (has_key item.pk item.sk x) (item ∷ items) (x ∷ put item items) (λ _. (n, ns.1))
      (λ _. (ns.0, Named-put item items n ns.1))

pub Named-update_at :
    (u : StatusArgs) (pk sk : String) (items : Table)
    → Named items
    → Named (update_at u pk sk items)
unfolding update_at
Named-update_at u pk sk [] ns = tt
Named-update_at u pk sk (x ∷ items) ns =
    if_either Named (has_key pk sk x) (with_status u x ∷ items) (x ∷ update_at u pk sk items)
      (λ _. ns) (λ _. (ns.0, Named-update_at u pk sk items ns.1))

other_key :
    (pk sk : String) (id : String) (x : Item)
    → NamesItsId x
    → after_hash (after_hash sk) ≡ id
    → (x.id == id) ≡ false
    → has_key pk sk x ≡ false
other_key pk sk id x n named other = elim (Bool-cases (x.sk == sk)) [
  | inl same ↦
      let keys : x.sk ≡ sk = (eq_iff x.sk sk).0 same in
      let ids : x.id ≡ id = sym n ∙ ap (λ k. after_hash (after_hash k)) keys ∙ named in
      ground (arith, (eq_iff x.id id).1 ids, other)
  | inr differs ↦ ground (arith, differs)
]

-- Where no item has an id, none has a key that names it.
pub key_is_new :
    (pk sk : String) (id : String) (items : Table)
    → Named items
    → after_hash (after_hash sk) ≡ id
    → find_item id items ≡ none
    → holds pk sk items ≡ false
unfolding holds find_item
key_is_new pk sk id [] ns named e = refl
key_is_new pk sk id (x ∷ items) ns named e =
    if_either
      (λ (o : Option Item).
        o ≡ none → (if has_key pk sk x then true else holds pk sk items) ≡ false)
      (x.id == id) (some x) (find_item id items) (λ _ found. absurd (some-none found))
      (λ other rest.
        rw (other_key pk sk id x ns.0 named other) (key_is_new pk sk id items ns.1 named rest))
      e
  where
    some-none : {x : Item} → some x ≡ none → ⊥
    some-none e = cc
