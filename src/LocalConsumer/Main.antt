-- ===== src/LocalConsumer/Main.antt =====
-- app/run_local.py: `main` around the consumer's run. What kombu's `ConsumerMixin.run` does, which
-- messages it hands to `handle` and how it ends, is a parameter, and so is the file system.
use lingo_async.Prelude.{
  ℕ, suc, String, Bool, not, ◌&&◌, Option, none, List, [], ◌∷◌, ◌==◌, or_default, if◌then◌else◌,
}
use lingo_async.Python.Exn.{Exn, Result, ok, err}
use lingo_async.Python.Text.{is_empty}
use lingo_async.Python.Json.{Json}
use lingo_async.World.{Env, World}
use lingo_async.EventLog.Provider.{Logs, Drivers}
use lingo_async.Worker.{Host, State}
use lingo_async.Worker.Batch.{deliver}
use lingo_async.LocalConsumer.{Settled, Consumer, synthetic, handle}
use lingo_async.LocalConsumer.Settlement.{settled_of}

-- `os.environ.get`, `os.path.exists`, and whether `os.remove` succeeds; it fails with an OSError.
pub record Os : Type 0 where
  pub environ : String → Option String
  pub exists : String → Logs → Bool
  pub removes : String → Logs → Bool

-- How `consumer.run()` ends: it returns once `should_stop` is set, which both signals do.
pub data Ending : Type 0 where
  returned interrupted : Ending
  raised : Exn → Ending

-- The messages that `consumer.run()` hands to `handle`, with their delivery tags, in order.
pub record Session : Type 0 where
  pub messages : List (Option String × Json)
  pub ending : Ending

abbrev pub event_log_path : Os → String
event_log_path os = or_default (os.environ "EVENT_LOG_SQLITE_PATH") ""

abbrev remove_file : String → Logs → Logs
remove_file path logs = record logs { files = λ p. if p == path then none else logs.files p }

-- The log of an earlier run is removed; a failure to do so is logged.
unfoldable pub truncate : Os → Logs → Logs
truncate os logs =
    let path = event_log_path os in
    if not (is_empty path) && os.exists path logs && os.removes path logs
    then remove_file path logs
    else logs

-- The exit code, or what is raised.
abbrev pub exit_of : Ending → Result ℕ
exit_of returned = ok 0
exit_of interrupted = ok 0
exit_of (raised e) = err e

module _ (env : Env) (h : Host) (d : Drivers) (decimal : ℕ → String) where
  unfoldable pub consume : List (Option String × Json) → Consumer → List Settled × Consumer
  consume [] c = ([], c)
  consume ((tag, body) ∷ rest) c =
      let (settled, c') = handle env h d decimal tag body c in
      let (later, c'') = consume rest c' in (settled ∷ later, c'')

  -- `main`, from the world that the imports have left: what is called on each message, the exit
  -- code, and the state at the end.
  unfoldable pub main : Os → Session → State Logs → List Settled × Result ℕ × State Logs
  unfolding truncate consume
  main os session s =
      let start : Consumer = record {
        processed = 0;
        worker = record s { log = truncate os s.log };
      } in
      let (settled, c) = consume session.messages start in
      (settled, exit_of session.ending, c.worker)

  -- The messages delivered one by one, without an event log: what becomes of each, and the world.
  unfoldable pub deliver_each : ℕ → List (Option String × Json) → World → List Settled × World
  deliver_each n [] w = ([], w)
  deliver_each n ((tag, body) ∷ rest) w =
      let (v, w') = deliver env h (synthetic h decimal n tag body) w in
      let (later, w'') = deliver_each (suc n) rest w' in (settled_of v ∷ later, w'')
