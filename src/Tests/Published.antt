-- ===== src/Tests/Published.antt =====
-- A published message on its way to its handler, at a concrete input.
use lingo_async.Prelude.{
  ◌≡◌, refl, inr, none, some, arith, Option, List, [], ◌∷◌, if◌then◌else◌, ◌==◌,
}
use lingo_async.Prelude.Int.{pos}
use lingo_async.Python.Exn.{ok}
use lingo_async.Python.Json.{Json, Fields, dict, field, str, int, end, lookup}
use lingo_async.Contracts.Messages.{xp_awarded, Stamp}
use lingo_async.Contracts.Envelope.{Body, text, bytes}
use lingo_async.Contracts.Parse.{Pydantic, parsed, body, parse_event}
use lingo_async.Contracts.Wire.{Carries, Reads}
use lingo_async.Contracts.Wire.RoundTrip.{parse_event-wire}
use lingo_async.EventLog.Sqlite.{sqlite_repo}
use lingo_async.Worker.{Host, SqsRecord, lambda_handler}
use lingo_async.Worker.Batch.{seen}
use lingo_async.Worker.Published.{PublishesAll, handle_all, unhandled, published_batch}
use lingo_async.Tests.Fixtures.{connected, host, message, pydantic, strict, down, fresh}
use lingo_async.Tests.Messages.{encoders, kombu, kombu_fields, kombu-IsEnvelope, kombu-IsLawful}
use lingo_async.Tests.Outages.{xp}
use lingo_async.Tests.Batches.{before}

-- What a producer sends that knows neither `leaderboard_opt_in` nor the language.
abbrev legacy_fields : Fields
legacy_fields =
    field "type" (str "xp_awarded") (
      field "user_id" (str "u1") (field "amount" (int (pos 10)) (field "source" (str "quest") end)))

abbrev from_payload : Body → Option Json
from_payload (text s) = if s == "{}" then some (dict legacy_fields) else none
from_payload (bytes _) = none

abbrev reader : Pydantic
reader = record pydantic { from_json = from_payload; json_mode = strict }

abbrev pub time : Stamp → Json
time _ = str "2026-09-16T12:00:00Z"

xp-Reads : Reads time strict (xp_awarded xp)
xp-Reads = record {
  to_str-str = λ _. refl;
  to_int-int = λ _. refl;
  to_float-float = λ _. refl;
  to_bool-bool = λ _. refl;
  is_literal_int-int = refl;
  to_stamp-time = tt;
}

xp-Carries : Carries time legacy_fields (xp_awarded xp)
unfolding lookup
xp-Carries = record {
  tag = refl;
  version = inr (refl, refl);
  fields = record {
    user_id = refl;
    amount = refl;
    source = refl;
    language = inr (refl, refl);
    opt_in = inr (refl, refl);
  };
}

parse_event-wire_example : parse_event kombu reader (body (text "eyJ9")) ≡ parsed (xp_awarded xp)
parse_event-wire_example =
    parse_event-wire time kombu encoders reader "{}" kombu_fields legacy_fields (xp_awarded xp)
      kombu-IsEnvelope kombu-IsLawful refl xp-Reads xp-Carries (omega arith)

abbrev pub receiver : Host
receiver = record host { codec = kombu; pydantic = reader }

abbrev pub sent : List SqsRecord
sent = message "m5" "eyJ9" ∷ []

pub sent-PublishesAll : PublishesAll receiver encoders time sent (xp_awarded xp ∷ [])
sent-PublishesAll = (
  record {
    payload = "{}";
    envelope = kombu_fields;
    fields = legacy_fields;
    body_is = refl;
    sealed = kombu-IsEnvelope;
    lawful = kombu-IsLawful;
    parses = refl;
    reads = xp-Reads;
    carries = xp-Carries;
    in_range = omega arith;
  },
  tt,
)

published_batch_example :
    seen down receiver
      (some (sqlite_repo connected))
      (lambda_handler down receiver (some (sqlite_repo connected)) sent before)
    ≡ (
      ok (unhandled down sent (xp_awarded xp ∷ []) fresh),
      handle_all down (xp_awarded xp ∷ []) fresh,
    )
published_batch_example =
    published_batch down receiver encoders time (some (sqlite_repo connected)) sent
      (xp_awarded xp ∷ []) before sent-PublishesAll
