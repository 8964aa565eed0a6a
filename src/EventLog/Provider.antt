-- ===== src/EventLog/Provider.antt =====
-- `get_events_repo` of app/db/provider.py and the constructors of the two stores. What the disk and
-- the AWS client refuse is a parameter.
use lingo_async.Prelude.{String, Option, none, some, [], ◌==◌, or_default, if◌then◌else◌}
use lingo_async.Python.Exn.{Result, ok, err, other}
use lingo_async.Python.Text.{lower_is}
use lingo_async.Settings.{Settings}
use lingo_async.EventLog.{Repo}
use lingo_async.EventLog.Sqlite
use lingo_async.EventLog.Dynamo
use lingo_async.EventLog.Dynamo.{Dynamo, events_table_name, dynamo_repo}

-- The table `events` of each SQLite file that has one, and the items of the DynamoDB table.
pub record Logs : Type 0 where
  pub files : String → Option Sqlite.Table
  pub items : Dynamo.Table

-- `connect` is the connection to a file with the statements on it, `table` is
-- `_resource.Table(name)` with the import of its module: whether they raise.
pub record Drivers : Type 0 where
  pub connect : String → Logs → Result (Unit {0})
  pub table : String → Result (Unit {0})
  pub dynamo : Dynamo

abbrev put_file : String → Sqlite.Table → Logs → Logs
put_file path rows logs = record logs { files = λ p. if p == path then some rows else logs.files p }

-- `SqliteEventsWriteRepository.__init__`: CREATE TABLE IF NOT EXISTS.
unfoldable pub init_sqlite : Drivers → String → Logs → Result (Unit {0}) × Logs
init_sqlite d path logs = elim (d.connect path logs) [
  | err e ↦ (err e, logs)
  | ok _ ↦ (ok tt, put_file path (or_default (logs.files path) []) logs)
]

abbrev into_file : String → Logs → Result (Unit {0}) × Sqlite.Table → Result (Unit {0}) × Logs
into_file path logs (r, rows) = (r, put_file path rows logs)

abbrev on_table :
    String
    → (Sqlite.Table → Result (Unit {0}) × Sqlite.Table)
    → Logs
    → Option Sqlite.Table
    → Result (Unit {0}) × Logs
on_table path statement logs none = (err (other "sqlite3.OperationalError"), logs)
on_table path statement logs (some rows) = into_file path logs (statement rows)

-- `with self._conn() as con: con.execute(...)`
unfoldable pub with_conn :
    Drivers
    → String
    → (Sqlite.Table → Result (Unit {0}) × Sqlite.Table)
    → Logs
    → Result (Unit {0}) × Logs
with_conn d path statement logs = elim (d.connect path logs) [
  | err e ↦ (err e, logs)
  | ok _ ↦ on_table path statement logs (logs.files path)
]

-- A SqliteEventsWriteRepository with its path.
abbrev pub sqlite_at : Drivers → String → Repo Logs
sqlite_at d path = record {
  save = λ a. with_conn d path (Sqlite.save a);
  update_status = λ a. with_conn d path (Sqlite.update_status a);
}

abbrev into_items : Logs → Result (Unit {0}) × Dynamo.Table → Result (Unit {0}) × Logs
into_items logs (r, items) = (r, record logs { items = items })

abbrev pub dynamo_in : Drivers → Repo Logs
dynamo_in d = record {
  save = λ a logs. into_items logs ((dynamo_repo d.dynamo).save a logs.items);
  update_status = λ a logs. into_items logs ((dynamo_repo d.dynamo).update_status a logs.items);
}

abbrev constructed : Repo Logs → Result (Unit {0}) × Logs → Result (Option (Repo Logs)) × Logs
constructed repo (ok _, logs) = (ok (some repo), logs)
constructed repo (err e, logs) = (err e, logs)

unfoldable pub get_events_repo : Settings → Drivers → Logs → Result (Option (Repo Logs)) × Logs
unfolding init_sqlite with_conn
get_events_repo s d logs =
    if lower_is s.event_log_backend "sqlite"
    then constructed (sqlite_at d s.event_log_sqlite_path)
        (init_sqlite d s.event_log_sqlite_path logs)
    else if lower_is s.event_log_backend "dynamodb"
    then constructed (dynamo_in d) (d.table (events_table_name s), logs)
    else (ok none, logs)
