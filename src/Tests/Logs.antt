-- ===== src/Tests/Logs.antt =====
-- The theorems on the event logs at concrete inputs.
use lingo_async.Prelude.{◌+◌, ◌≡◌, refl, false, none, some, List, [], ◌∷◌}
use lingo_async.Prelude.Int.{pos}
use lingo_async.Python.Exn.{ok, err, other}
use lingo_async.Python.Text.{lower_is}
use lingo_async.Settings.{Settings}
use lingo_async.World.{Env}
use lingo_async.EventLog.{SaveArgs}
use lingo_async.EventLog.Sqlite
use lingo_async.EventLog.Sqlite.{Row, find, new_row, sqlite_repo}
use lingo_async.EventLog.Dynamo
use lingo_async.EventLog.Dynamo.{Dynamo, Item, new_item, dynamo_repo}
use lingo_async.EventLog.Dynamo.Lookup.{find_item, copies, holds}
use lingo_async.EventLog.Agreement.{Mirrors, Serves, redelivery_diverges}
use lingo_async.EventLog.Provider.{Logs, Drivers, get_events_repo}
use lingo_async.Worker.{State, SqsRecord, lambda_handler}
use lingo_async.Worker.Agreement.{AreNew, Agree, batch_agrees}
use lingo_async.Worker.Entry.{invoke, visible, invoke-batch}
use lingo_async.Tests.Fixtures.{connected, up, fresh, settings, host, message}

abbrev serving : Dynamo
serving = record {
  put_item = λ _ _. ok tt;
  query = λ id items. ok (find_item id items);
  update_item = λ _ _ _. ok tt;
}

serving-Serves : Serves serving
serving-Serves = record { puts = λ _ _. refl; updates = λ _ _ _. refl; queries = λ _ _ _. refl }

empty-Mirrors : Mirrors [] []
unfolding find find_item
empty-Mirrors = record { keyed = tt; same = λ j. refl }

abbrev empty_dynamo : State Dynamo.Table
empty_dynamo = record { world = fresh; log = [] }

abbrev empty_sqlite : State Sqlite.Table
empty_sqlite = record { world = fresh; log = [] }

abbrev two_records : List SqsRecord
two_records = message "m1" "ad" ∷ message "m2" "nonsense" ∷ []

two_records-AreNew : AreNew two_records []
unfolding find
two_records-AreNew = (refl, (refl, tt), (refl, tt, tt))

batch_agrees_example :
    Agree
      (lambda_handler up host (some (dynamo_repo serving)) two_records empty_dynamo).1.log
      (lambda_handler up host (some (sqlite_repo connected)) two_records empty_sqlite).1.log
batch_agrees_example =
    batch_agrees up host serving serving-Serves connected two_records empty_dynamo empty_sqlite
      (λ _. refl) refl (record { mirrors = empty-Mirrors; named = tt }) two_records-AreNew

-- A message that is delivered a second time, two hours later.
abbrev first : SaveArgs
first = record {
  id = "m1";
  user_id = "u1";
  event_type = "ad_watched";
  payload_json = "{}";
  received_at = "2026-09-16T10:00:00+00:00";
  ttl_epoch = pos 1;
}

abbrev second : SaveArgs
second = record first { received_at = "2026-09-16T12:00:00+00:00"; ttl_epoch = pos 2 }

found_first : find "m1" (new_row first ∷ []) ≡ some (new_row first)
unfolding find
found_first = refl

second_new : holds (new_item second).pk (new_item second).sk (new_item first ∷ []) ≡ false
unfolding holds
second_new = refl

redelivery_diverges_example :
    (Sqlite.save second (new_row first ∷ [])
      ≡ (err (other "sqlite3.IntegrityError"), new_row first ∷ []))
    × ((Dynamo.save serving second (new_item first ∷ [])).0 ≡ ok tt)
    × (copies "m1" (Dynamo.save serving second (new_item first ∷ [])).1
        ≡ copies "m1" (new_item first ∷ []) + 1)
redelivery_diverges_example =
    redelivery_diverges serving serving-Serves second (new_item first ∷ []) (new_row first ∷ [])
      (new_row first) found_first second_new

-- A log on a disk that cannot be opened.
abbrev sqlite_settings : Settings
sqlite_settings = record settings { event_log_backend = "SQLite" }

abbrev pub logging : Env
logging = record up { settings = sqlite_settings }

abbrev pub broken_disk : Drivers
broken_disk = record {
  connect = λ _ _. err (other "sqlite3.OperationalError");
  table = λ _. ok tt;
  dynamo = serving;
}

abbrev pub empty_logs : Logs
empty_logs = record { files = λ _. none; items = [] }

abbrev start : State Logs
start = record { world = fresh; log = empty_logs }

invoke-batch_example :
    visible (invoke logging host broken_disk (some (message "m1" "ad" ∷ [])) start)
    ≡ (err (other "sqlite3.OperationalError"), fresh)
unfolding get_events_repo lower_is
invoke-batch_example = invoke-batch logging host broken_disk (some (message "m1" "ad" ∷ [])) start
