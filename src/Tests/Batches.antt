-- ===== src/Tests/Batches.antt =====
-- Batches of app/handler.py, and its theorems at concrete inputs.
use lingo_async.Prelude.{◌≡◌, refl, some, [], ◌∷◌}
use lingo_async.Python.Exn.{ok, err, value_error}
use lingo_async.Python.Json.{lookup}
use lingo_async.Contracts.Messages.{ad_watched}
use lingo_async.Contracts.Literals.{◌>>=◌, check}
use lingo_async.Contracts.Validate.{validate, validate_tagged, validate_ad_watched}
use lingo_async.Contracts.Envelope.{
  unwrap_kombu_envelope, envelope_of, try_kombu_envelope, open_envelope,
}
use lingo_async.Contracts.Parse.{parsed, invalid, raised, parse_event}
use lingo_async.Python.Json.{is_text}
use lingo_async.Handlers.{dispatch, registered, handle}
use lingo_async.EventLog.Sqlite.{Table, sqlite_repo}
use lingo_async.Worker.{SqsRecord, State, process_record, process_event, lambda_handler}
use lingo_async.Worker.Batch.{parse_record, clocked, batch, seen, lambda_handler-batch}
use lingo_async.Worker.Isolation.{
  Validates, failed_ids, deliver_all, lambda_handler_isolated, uncaught_parse_error,
}
use lingo_async.Tests.Fixtures.{connected, up, fresh, host, message}
use lingo_async.Tests.Messages.{ad}

abbrev pub before : State Table
before = record { world = fresh; log = [] }

abbrev pub good : SqsRecord
good = message "m1" "ad"

abbrev pub invalid_body : SqsRecord
invalid_body = message "m2" "nonsense"

abbrev malformed : SqsRecord
malformed = message "m3" "malformed"

good_parses : parse_record host good ≡ parsed (ad_watched ad)
unfolding parse_event unwrap_kombu_envelope try_kombu_envelope envelope_of validate validate_tagged
    validate_ad_watched lookup ◌>>=◌ check
good_parses = refl

invalid_parses : parse_record host invalid_body ≡ invalid
unfolding parse_event unwrap_kombu_envelope try_kombu_envelope
invalid_parses = refl

malformed_raises : parse_record host malformed ≡ raised (value_error "base64")
unfolding parse_event unwrap_kombu_envelope try_kombu_envelope envelope_of open_envelope lookup
    is_text
malformed_raises = refl

lambda_handler-batch_example :
    seen up host
      (some (sqlite_repo connected))
      (lambda_handler up host (some (sqlite_repo connected)) (good ∷ malformed ∷ []) before)
    ≡ batch up host (good ∷ malformed ∷ []) fresh
lambda_handler-batch_example =
    lambda_handler-batch up host (some (sqlite_repo connected)) (good ∷ malformed ∷ []) before

good-Validates : Validates host good
good-Validates e q = cc (good_parses)

invalid-Validates : Validates host invalid_body
invalid-Validates e q = cc (invalid_parses)

lambda_handler_isolated_example :
    seen up host
      (some (sqlite_repo connected))
      (lambda_handler up host (some (sqlite_repo connected)) (invalid_body ∷ good ∷ []) before)
    ≡ (
      ok (failed_ids up host (invalid_body ∷ good ∷ []) fresh),
      deliver_all up host (invalid_body ∷ good ∷ []) fresh,
    )
lambda_handler_isolated_example =
    lambda_handler_isolated up host (some (sqlite_repo connected)) (invalid_body ∷ good ∷ []) before
      (invalid-Validates, (good-Validates, tt))

good_succeeds : (lambda_handler up host (some (sqlite_repo connected)) (good ∷ []) before).0 ≡ ok []
unfolding lambda_handler process_record process_event dispatch registered handle parse_event
    unwrap_kombu_envelope try_kombu_envelope envelope_of validate validate_tagged
    validate_ad_watched lookup ◌>>=◌ check
good_succeeds = refl

uncaught_parse_error_example :
    let after = (lambda_handler up host (some (sqlite_repo connected)) (good ∷ []) before).1 in
    lambda_handler up host
      (some (sqlite_repo connected))
      (good ∷ malformed ∷ invalid_body ∷ [])
      before
    ≡ (err (value_error "base64"), record after { world = clocked after.world })
uncaught_parse_error_example =
    uncaught_parse_error up host (some (sqlite_repo connected)) (good ∷ []) (invalid_body ∷ [])
      malformed before [] (value_error "base64") good_succeeds malformed_raises
