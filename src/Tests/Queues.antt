-- ===== src/Tests/Queues.antt =====
-- The queue at concrete inputs: a valid and an invalid record, and a batch with a poisonous one.
use lingo_async.Prelude.{◌+◌, ◌*◌, ◌≤◌, ◌≡◌, refl, none, some, [], ◌∷◌, ◌++◌}
use mathlib.Core.List.Perm
use lingo_async.Python.Exn.{err, value_error}
use lingo_async.Python.Text.{lower_is}
use lingo_async.Python.Json.{lookup, is_text}
use lingo_async.Contracts.Literals.{◌>>=◌, check}
use lingo_async.Contracts.Validate.{validate, validate_tagged, validate_ad_watched}
use lingo_async.Contracts.Envelope.{
  unwrap_kombu_envelope, envelope_of, try_kombu_envelope, open_envelope,
}
use lingo_async.Contracts.Messages.{xp_awarded}
use lingo_async.Contracts.Parse.{raised, parse_event}
use lingo_async.Handlers.{dispatch, registered, handle}
use lingo_async.Handlers.Owed.{credits_of}
use lingo_async.EventLog.Provider.{get_events_repo}
use lingo_async.EventLog.Sqlite.{sqlite_repo}
use lingo_async.Worker.{SqsRecord, process_record, process_event, lambda_handler}
use lingo_async.Worker.Batch.{parse_record}
use lingo_async.Worker.Entry.{invoke}
use lingo_async.Queue.{Queue, kept, deleted, publish, hand_over, give_up, Reachable, start, later}
use lingo_async.Queue.Accounts.{IsAccounted, Reachable-IsAccounted}
use lingo_async.Worker.Entry.{Opens}
use lingo_async.Queue.Drain.{Drained, drain, drains}
use lingo_async.Queue.Poison.{redelivered, poison_recredits}
use lingo_async.Tests.Fixtures.{connected, closed-open, up, fresh, host, message}
use lingo_async.Tests.Logs.{broken_disk, empty_logs}
use lingo_async.Tests.Batches.{before, good, invalid_body}
use lingo_async.Tests.Messages.{encoders}
use lingo_async.Tests.Published.{time, receiver, sent, sent-PublishesAll}
use lingo_async.Tests.Healthy.{healthy, healthy-IsHealthy}
use lingo_async.Tests.Outages

-- The invalid record comes back and ends in the dead-letter queue.
abbrev settled : Queue
settled = record {
  published = good ∷ invalid_body ∷ [];
  pending = [];
  completed =
      record {
        gone = good;
        batch = good ∷ invalid_body ∷ [];
        state = record { world = fresh; log = empty_logs };
      }
      ∷ [];
  dead = invalid_body ∷ [];
}

settled-Reachable : Reachable up host broken_disk settled
unfolding kept deleted invoke get_events_repo lambda_handler process_record process_event dispatch
    registered handle parse_event unwrap_kombu_envelope try_kombu_envelope envelope_of validate
    validate_tagged validate_ad_watched lookup ◌>>=◌ check lower_is
settled-Reachable =
    let both = later (later start (publish invalid_body)) (publish good) in
    let delivered = later both (
      hand_over (good ∷ invalid_body ∷ []) [] (record { world = fresh; log = empty_logs })
        (Perm.refl (good ∷ invalid_body ∷ []))) in
    later delivered (give_up invalid_body [] (Perm.refl (invalid_body ∷ [])))

Reachable-IsAccounted_example : IsAccounted up host broken_disk settled
Reachable-IsAccounted_example = Reachable-IsAccounted up host broken_disk settled settled-Reachable

abbrev poison : SqsRecord
poison = message "m9" "malformed"

poison_raises : parse_record receiver poison ≡ raised (value_error "base64")
unfolding parse_event unwrap_kombu_envelope try_kombu_envelope envelope_of open_envelope lookup
    is_text
poison_raises = refl

poison_recredits_example :
    let after =
      redelivered healthy receiver (some (sqlite_repo connected)) (sent ++ poison ∷ []) 2 before in
    ((lambda_handler healthy receiver (some (sqlite_repo connected)) (sent ++ poison ∷ []) after).0
      ≡ err (value_error "base64"))
    × (2 * 1 + 0 ≤ credits_of Outages.xp after.world)
poison_recredits_example =
    poison_recredits healthy healthy-IsHealthy Outages.xp receiver encoders time
      (some (sqlite_repo connected)) sent [] (xp_awarded Outages.xp ∷ []) poison
      (value_error "base64") sent-PublishesAll poison_raises 2 before closed-open

-- One published record in the queue, and a log that cannot be broken since there is none.
abbrev waiting : Queue
waiting = record { published = sent; pending = sent; completed = []; dead = [] }

waiting-Reachable : Reachable healthy receiver broken_disk waiting
waiting-Reachable = later start (publish (message "m5" "eyJ9"))

healthy-Opens : Opens healthy broken_disk
unfolding get_events_repo lower_is
healthy-Opens = record { repo = λ _. none; opens = λ _. refl }

drains_example : Drained healthy receiver broken_disk waiting (
    drain healthy receiver broken_disk
      (sent ∷ [])
      (record { world = fresh; log = empty_logs })
      waiting)
drains_example =
    drains healthy healthy-IsHealthy receiver encoders time broken_disk healthy-Opens (sent ∷ [])
      ((xp_awarded Outages.xp ∷ []) ∷ []) (record { world = fresh; log = empty_logs }) waiting
      closed-open (sent-PublishesAll, tt) waiting-Reachable refl
