-- ===== src/Worker/Journal.antt =====
-- What the SQLite event log of app/db/sqlite/events.py says of a record once `lambda_handler` of
-- app/handler.py has gone through it.
use lingo_async.Prelude.{String, ◌≡◌, Option, none, some, List, [], ◌==◌, if◌then◌else◌}
use lingo_async.Python.Exn.{Result, ok, err}
use lingo_async.World.{Env, read_clock, emit}
use lingo_async.Contracts.Messages.{EventMessage, type_of, user_of}
use lingo_async.Handlers.{Outcome, dispatch}
use lingo_async.EventLog.{StatusArgs, Repo}
use lingo_async.EventLog.Sqlite.{Row, Table, find, new_row}
use lingo_async.EventLog.Sqlite.Lookup.{found_or, updated_if}
use lingo_async.Worker.{SqsRecord, Host, id_of, body_of, State, save_args, process_record}
use lingo_async.Worker.Batch.{clocked}

abbrev status_of : Result (List Outcome) → String
status_of (ok _) = "ok"
status_of (err _) = "failed"

abbrev error_of : Host → Result (List Outcome) → Option String
error_of h (ok _) = none
error_of h (err e) = some (h.repr e)

abbrev outcomes_of : Result (List Outcome) → List Outcome
outcomes_of (ok outcomes) = outcomes
outcomes_of (err _) = []

abbrev pub final_status : Host → String → Result (List Outcome) → String → StatusArgs
final_status h id result json = record {
  id = id;
  status = status_of result;
  error_msg = error_of h result;
  outcomes_json = json;
}

module _ (env : Env) (h : Host) (r : SqsRecord) (s : State Table) (m : EventMessage) where
  -- What the handler returns or raises for the message.
  abbrev pub handled : Result (List Outcome)
  handled = (dispatch env m (clocked s.world)).0

  -- The row of the record as `_safe_save` writes it.
  abbrev pub received_row : Row
  received_row = new_row (
      save_args (id_of r) (user_of m) (type_of m) (body_of r) (env.utc_now s.world.trace)
        (env.utc_now (emit read_clock s.world).trace))

  abbrev pub journal : Repo Table → Table
  journal repo = (process_record env h (some repo) r s).1.log

  abbrev JournalSays : String → String → Table → Type 0
  JournalSays j json rows =
      find j rows
      ≡ updated_if (id_of r == j) (final_status h (id_of r) handled json)
          (found_or (find j s.log) (if id_of r == j then some received_row else none))
