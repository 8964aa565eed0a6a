-- ===== src/EventLog/Agreement.antt =====
-- How far app/db/dynamo/events.py mirrors app/db/sqlite/events.py.
use lingo_async.Prelude.{
  ◌+◌, ◌≤◌, String, ◌≡◌, refl, true, false, Option, none, some, arith, Option-cases, Bool, inl, inr,
  ◌==◌, eq_iff, eq_refl, if◌then◌else◌,
}
use lingo_async.Python.Exn.{ok, err, other}
use lingo_async.EventLog.{SaveArgs, StatusArgs}
use lingo_async.EventLog.Sqlite
use lingo_async.EventLog.Sqlite.{Row, find, new_row}
use lingo_async.EventLog.Sqlite.Lookup.{find-save, find-update_rows, found_or, updated_if}
use lingo_async.EventLog.Dynamo
use lingo_async.EventLog.Dynamo.{Dynamo, Item, new_item, put, update_at}
use lingo_async.EventLog.Dynamo.Lookup.{
  find_item, copies, copies-none, copies-put, holds, Keyed, Keyed-put, Keyed-update_at, find-put,
  find-update_at, item_or, updated_item_if,
}

abbrev known : Option (Option String) → Option String
known none = none
known (some e) = e

-- The item as a row; an absent `error_msg` reads as NULL.
abbrev pub row_of : Item → Row
row_of item = record {
  id = item.id;
  user_id = item.user_id;
  event_type = item.event_type;
  payload_json = item.payload_json;
  received_at = item.received_at;
  status = item.status;
  error_msg = known item.error_msg;
  outcomes_json = item.outcomes_json;
  ttl_epoch = item.ttl_epoch;
}

abbrev pub as_row : Option Item → Option Row
as_row none = none
as_row (some item) = some (row_of item)

-- The two tables show the same row under each id.
pub record Mirrors (items : Dynamo.Table) (rows : Sqlite.Table) : Type 0 where
  pub keyed : Keyed items
  pub same : (j : String) → as_row (find_item j items) ≡ find j rows

-- DynamoDB while it serves every call and its id index is up to date. Of an id that two items have,
-- nothing is said.
pub record Serves (d : Dynamo) : Type 0 where
  pub puts : (item : Item) (items : Dynamo.Table) → d.put_item item items ≡ ok tt
  pub updates : (pk sk : String) (items : Dynamo.Table) → d.update_item pk sk items ≡ ok tt
  pub queries :
      (id : String) (items : Dynamo.Table)
      → copies id items ≤ 1
      → d.query id items ≡ ok (find_item id items)

-- No item has the id or the key.
pub record IsNew (a : SaveArgs) (items : Dynamo.Table) : Type 0 where
  pub id_new : find_item a.id items ≡ none
  pub key_new : holds (new_item a).pk (new_item a).sk items ≡ false

as_row-or : (x y : Option Item) → as_row (item_or x y) ≡ found_or (as_row x) (as_row y)
as_row-or none y = refl
as_row-or (some x) y = refl

as_row-updated :
    (b : Bool) (u : StatusArgs) (x : Option Item)
    → as_row (updated_item_if b u x) ≡ updated_if b u (as_row x)
as_row-updated b u none = refl
as_row-updated true u (some x) = refl
as_row-updated false u (some x) = refl

module _ (d : Dynamo) (serves : Serves d) where
  save_put :
      (a : SaveArgs) (items : Dynamo.Table)
      → Dynamo.save d a items ≡ (ok tt, put (new_item a) items)
  unfolding Dynamo.save
  save_put a items = ground (arith, serves.puts (new_item a) items)

  pub save-Mirrors :
      (a : SaveArgs) (items : Dynamo.Table) (rows : Sqlite.Table)
      → Mirrors items rows
      → IsNew a items
      → Mirrors (Dynamo.save d a items).1 (Sqlite.save a rows).1
  save-Mirrors a items rows m new = rw (save_put a items) (record {
    keyed = Keyed-put (new_item a) items m.keyed new.key_new;
    same = λ j.
        rw (find-put j (new_item a) items new.key_new, find-save a j rows)
          (ground (
            arith,
            as_row-or (find_item j items) (if a.id == j then some (new_item a) else none),
            m.same j,
          ));
  })

  update_none :
      (u : StatusArgs) (items : Dynamo.Table)
      → copies u.id items ≤ 1
      → find_item u.id items ≡ none
      → Dynamo.update_status d u items ≡ (ok tt, items)
  unfolding Dynamo.update_status
  update_none u items once e = ground (arith, serves.queries u.id items once, e)

  update_some :
      (u : StatusArgs) (items : Dynamo.Table) (base : Item)
      → copies u.id items ≤ 1
      → find_item u.id items ≡ some base
      → Dynamo.update_status d u items ≡ (ok tt, update_at u base.pk base.sk items)
  unfolding Dynamo.update_status
  update_some u items base once e =
      ground (arith, serves.queries u.id items once, e, serves.updates base.pk base.sk items)

  update-Mirrors :
      (u : StatusArgs) (items : Dynamo.Table) (rows : Sqlite.Table)
      → Mirrors items rows
      → copies u.id items ≤ 1
      → Mirrors (Dynamo.update_status d u items).1 (Sqlite.update_status u rows).1
  unfolding Sqlite.update_status
  update-Mirrors u items rows m once = elim (Option-cases (find_item u.id items)) [
    | inl e ↦ rw (update_none u items once e) (record {
      keyed = m.keyed;
      same =
          λ j. ground (arith, find-update_rows u j rows, m.same j, m.same u.id, e, eq_iff u.id j);
    })
    | inr (base, e) ↦ rw (update_some u items base once e) (record {
      keyed = Keyed-update_at u base.pk base.sk items m.keyed;
      same = λ j. ground (
        arith,
        find-update_at u j items base m.keyed e,
        find-update_rows u j rows,
        m.same j,
        as_row-updated (u.id == j) u (find_item j items),
      );
    })
  ]

  copies-save :
      (a : SaveArgs) (items : Dynamo.Table)
      → IsNew a items
      → copies a.id (Dynamo.save d a items).1 ≤ 1
  copies-save a items new = rw (save_put a items) (
      grind
        (arith, copies-put a.id (new_item a) items new.key_new, copies-none a.id items new.id_new))

  -- A save under a new id, and the update of its status, leave both tables alike.
  pub delivery-Mirrors :
      (a : SaveArgs) (u : StatusArgs) (items : Dynamo.Table) (rows : Sqlite.Table)
      → u.id ≡ a.id
      → Mirrors items rows
      → IsNew a items
      → Mirrors
          (Dynamo.update_status d u (Dynamo.save d a items).1).1
          (Sqlite.update_status u (Sqlite.save a rows).1).1
  delivery-Mirrors a u items rows same m new =
      update-Mirrors u (Dynamo.save d a items).1 (Sqlite.save a rows).1
        (save-Mirrors a items rows m new) (rw (same) (copies-save a items new))

  -- On a save under an id that both logs hold, with a new key, SQLite raises an IntegrityError and
  -- keeps its rows, while DynamoDB, if it serves the call, ends with one more item of that id.
  pub redelivery_diverges :
      (a : SaveArgs) (items : Dynamo.Table) (rows : Sqlite.Table) (row : Row)
      → find a.id rows ≡ some row
      → holds (new_item a).pk (new_item a).sk items ≡ false
      → (Sqlite.save a rows ≡ (err (other "sqlite3.IntegrityError"), rows))
        × ((Dynamo.save d a items).0 ≡ ok tt)
        × (copies a.id (Dynamo.save d a items).1 ≡ copies a.id items + 1)
  unfolding Sqlite.save
  redelivery_diverges a items rows row e h = (
    ground (arith, e),
    rw (save_put a items) refl,
    rw (save_put a items)
        (rw (copies-put a.id (new_item a) items h) (ground (arith, eq_refl a.id))),
  )
