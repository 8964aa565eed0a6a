-- ===== src/Tests/Entry.antt =====
-- The theorems on the boot probe and on the local consumer at concrete inputs.
use lingo_async.Prelude.{◌≡◌, true, none, some, [], ◌∷◌}
use lingo_async.Python.Exn.{Exn, ok, err}
use lingo_async.Python.Json.{str}
use lingo_async.World.{Trace, HttpRequest}
use lingo_async.Boot.{Log, verify_internal_token_on_boot}
use lingo_async.Boot.Report.{IsHttpError, Means, boot_reports}
use lingo_async.LocalConsumer.{Consumer}
use lingo_async.LocalConsumer.Main.{Os, Session, returned}
use lingo_async.EventLog.Provider.{Drivers}
use lingo_async.Tests.Logs.{broken_disk, empty_logs}
use lingo_async.Tests.Fixtures.{forbidding, fresh}

answers_with_http :
    (t : Trace) (req : HttpRequest) (e : Exn) → forbidding.http t req ≡ err e → IsHttpError e
answers_with_http t req e h = absurd (ok-err h)
  where
    ok-err : {e : Exn} → forbidding.http t req ≡ err e → ⊥
    ok-err h = cc

boot_reports_example :
    ((log : Log) × ((verify_internal_token_on_boot forbidding fresh).0 ≡ ok log)
      × Means forbidding fresh log)
    × ((verify_internal_token_on_boot forbidding fresh).1.breaker ≡ fresh.breaker)
boot_reports_example = boot_reports forbidding fresh answers_with_http

abbrev consumer : Consumer
consumer = record { processed = 0; worker = record { world = fresh; log = empty_logs } }

-- A run that removes the log of an earlier one, logs to SQLite, and ends on a signal.
abbrev disk : Drivers
disk = record broken_disk { connect = λ _ _. ok tt }

abbrev os : Os
os = record { environ = λ _. some "/tmp/log.sqlite"; exists = λ _ _. true; removes = λ _ _. true }

abbrev two_messages : Session
two_messages = record {
  messages = (some "7", str "friend") ∷ (none, str "nonsense") ∷ [];
  ending = returned;
}
