-- ===== src/EventLog/Sqlite.antt =====
-- app/db/sqlite/events.py. The table is the list of its rows, oldest first; SQLite's reports of a
-- duplicate primary key and its row-wise UPDATE are what the SQL statements of the source ask for.
pub mod Lookup
use lingo_async.Prelude.{
  String, Bool, true, false, Option, none, some, List, [], ◌∷◌, ◌++◌, map, sym, ◌≡◌, ◌==◌,
  if◌then◌else◌,
}
use lingo_async.Prelude.Int.{ℤ}
use lingo_async.Python.Exn.{Result, ok, err, other}
use lingo_async.EventLog.{SaveArgs, StatusArgs, Repo}

pub record Row : Type 0 where
  pub id : String
  pub user_id : String
  pub event_type : String
  pub payload_json : String
  pub received_at : String
  pub status : String
  pub error_msg : Option String
  pub outcomes_json : String
  pub ttl_epoch : ℤ

abbrev pub Table : Type 0
Table = List Row

unfoldable pub find : String → Table → Option Row
find id [] = none
find id (row ∷ rows) = if row.id == id then some row else find id rows

-- The row that the INSERT writes: `status` is given, `error_msg` and `outcomes_json` default.
abbrev pub new_row : SaveArgs → Row
new_row a = record {
  id = a.id;
  user_id = a.user_id;
  event_type = a.event_type;
  payload_json = a.payload_json;
  received_at = a.received_at;
  status = "received";
  error_msg = none;
  outcomes_json = "[]";
  ttl_epoch = a.ttl_epoch;
}

abbrev insert_unless : SaveArgs → Table → Option Row → Result (Unit {0}) × Table
insert_unless a rows none = (ok tt, rows ++ new_row a ∷ [])
insert_unless a rows (some _) = (err (other "sqlite3.IntegrityError"), rows)

-- The statement of `save`, on a connection.
unfoldable pub save : SaveArgs → Table → Result (Unit {0}) × Table
unfolding find
save a rows = insert_unless a rows (find a.id rows)

abbrev pub with_status : StatusArgs → Row → Row
with_status a row = record row {
  status = a.status;
  error_msg = a.error_msg;
  outcomes_json = a.outcomes_json;
}

unfoldable pub update_rows : StatusArgs → Table → Table
update_rows a [] = []
update_rows a (row ∷ rows) =
    (if row.id == a.id then with_status a row else row) ∷ update_rows a rows

-- The statement of `update_status`, on a connection.
unfoldable pub update_status : StatusArgs → Table → Result (Unit {0}) × Table
unfolding update_rows
update_status a rows = (ok tt, update_rows a rows)

-- The two statements where every connection is served.
abbrev pub served_repo : Repo Table
served_repo = record { save = save; update_status = update_status }

-- `_conn` round a statement: whether the connection or its commit raises is a parameter, and where
-- it does nothing is written.
abbrev on_connection :
    Result (Unit {0}) → (Table → Result (Unit {0}) × Table) → Table → Result (Unit {0}) × Table
on_connection (ok _) statement rows = statement rows
on_connection (err e) statement rows = (err e, rows)

-- SqliteEventsWriteRepository on one file.
abbrev pub sqlite_repo : (Table → Result (Unit {0})) → Repo Table
sqlite_repo connect = record {
  save = λ a rows. on_connection (connect rows) (save a) rows;
  update_status = λ a rows. on_connection (connect rows) (update_status a) rows;
}

-- SQLite opens and commits every connection.
abbrev pub Connects : (Table → Result (Unit {0})) → Type 0
Connects connect = (rows : Table) → connect rows ≡ ok tt

pub sqlite_repo-served :
    (connect : Table → Result (Unit {0})) → Connects connect → served_repo ≡ sqlite_repo connect
sqlite_repo-served connect c = λ i. record {
  save = λ a rows. on_connection (sym (c rows) i) (save a) rows;
  update_status = λ a rows. on_connection (sym (c rows) i) (update_status a) rows;
}
