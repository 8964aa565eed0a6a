-- ===== src/EventLog/Sqlite/Lookup.antt =====
-- What a lookup by id finds after the two statements of app/db/sqlite/events.py.
use lingo_async.Prelude.{
  String, ◌≡◌, refl, Bool, Option, none, some, [], ◌∷◌, ◌++◌, arith, ◌==◌, eq_iff, if◌then◌else◌,
}
use lingo_async.EventLog.{SaveArgs, StatusArgs}
use lingo_async.EventLog.Sqlite.{Row, Table, find, new_row, save, with_status, update_rows}

abbrev pub found_or : Option Row → Option Row → Option Row
found_or none o = o
found_or (some row) _ = some row

abbrev pub updated_if : Bool → StatusArgs → Option Row → Option Row
updated_if b a none = none
updated_if b a (some row) = some (if b then with_status a row else row)

find-append :
    (j : String) (rows : Table) (row : Row)
    → find j (rows ++ row ∷ []) ≡ found_or (find j rows) (if row.id == j then some row else none)
unfolding find
find-append j [] row = refl
find-append j (x ∷ rows) row = ground (arith, find-append j rows row)

-- A save adds a row for a new id, and changes nothing for one that is there.
pub find-save :
    (a : SaveArgs) (j : String) (rows : Table)
    → find j (save a rows).1 ≡ found_or (find j rows) (if a.id == j then some (new_row a) else none)
unfolding save
find-save a j rows = ground (arith, find-append j rows (new_row a), eq_iff a.id j)

-- A status update changes the row of its id and no other.
pub find-update_rows :
    (a : StatusArgs) (j : String) (rows : Table)
    → find j (update_rows a rows) ≡ updated_if (a.id == j) a (find j rows)
unfolding find update_rows
find-update_rows a j [] = refl
find-update_rows a j (x ∷ rows) =
    ground (arith, find-update_rows a j rows, eq_iff x.id a.id, eq_iff x.id j, eq_iff a.id j)
