-- ===== src/Worker/Entry.antt =====
-- `lambda_handler` of app/handler.py from the event that AWS hands over: the store is constructed,
-- outside every guard, before the first record is read.
use lingo_async.Prelude.{◌≡◌, refl, Option, List, [], or_default}
use lingo_async.Python.Exn.{Result, ok, err}
use lingo_async.World.{Env, World}
use lingo_async.EventLog.{Repo}
use lingo_async.EventLog.Provider.{Logs, Drivers, get_events_repo}
use lingo_async.Worker.{SqsRecord, Host, State, Failures, lambda_handler}
use lingo_async.Worker.Batch.{batch, lambda_handler-batch}

abbrev after_repo :
    Env
    → Host
    → List SqsRecord
    → World
    → Result (Option (Repo Logs)) × Logs
    → Result Failures × State Logs
after_repo env h rs w (err e, logs) = (err e, record { world = w; log = logs })
after_repo env h rs w (ok repo, logs) =
    lambda_handler env h repo rs (record { world = w; log = logs })

-- `records` is `event.get("Records")`.
unfoldable pub invoke :
    Env → Host → Drivers → Option (List SqsRecord) → State Logs → Result Failures × State Logs
invoke env h d records s =
    after_repo env h (or_default records []) s.world (get_events_repo env.settings d s.log)

-- The construction of the event log succeeds, whatever the log holds.
pub record Opens (env : Env) (d : Drivers) : Type 0 where
  pub repo : Logs → Option (Repo Logs)
  pub opens : (logs : Logs) → (get_events_repo env.settings d logs).0 ≡ ok (repo logs)

abbrev pub visible : Result Failures × State Logs → Result Failures × World
visible (result, s) = (result, s.world)

-- What the construction of the store leaves of a batch.
abbrev pub batch_unless :
    Env → Host → List SqsRecord → World → Result (Option (Repo Logs)) → Result Failures × World
batch_unless env h rs w (err e) = (err e, w)
batch_unless env h rs w (ok _) = batch env h rs w

module _ (env : Env) (h : Host) (d : Drivers) where
  after_repo-batch :
      (rs : List SqsRecord) (w : World) (opened : Result (Option (Repo Logs)) × Logs)
      → visible (after_repo env h rs w opened) ≡ batch_unless env h rs w opened.0
  after_repo-batch rs w (err e, logs) = refl
  after_repo-batch rs w (ok repo, logs) =
      lambda_handler-batch env h repo rs (record { world = w; log = logs })

  -- For every configuration of the event log, an invocation raises what the construction of the log
  -- raises, before it reads a record and with the world unchanged, or else, where the construction
  -- succeeds, does what the reference without a log does.
  pub invoke-batch :
      (records : Option (List SqsRecord)) (s : State Logs)
      → visible (invoke env h d records s)
        ≡ batch_unless env h
            (or_default records [])
            s.world
            (get_events_repo env.settings d s.log).0
  unfolding invoke
  invoke-batch records s =
      after_repo-batch (or_default records []) s.world (get_events_repo env.settings d s.log)
