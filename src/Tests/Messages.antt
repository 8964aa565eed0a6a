-- ===== src/Tests/Messages.antt =====
-- The theorems on app/contracts/messages.py at concrete inputs.
use lingo_async.Prelude.{◌≡◌, refl, none, some, [], ◌∷◌, ◌==◌, eqb, if◌then◌else◌}
use lingo_async.Prelude.Int.{pos, ◌≤ℤ◌}
use lingo_async.Python.Exn.{ok, value_error}
use lingo_async.Python.Json.{Json, Fields, dict, lookup, is_text, str, int, field, end}
use lingo_async.Contracts.Messages.{ad_watched, AdWatched}
use lingo_async.Contracts.Literals.{◌>>=◌, check}
use lingo_async.Contracts.Validate.{validate, validate_tagged, validate_ad_watched}
use lingo_async.Contracts.Envelope.{Codec, text}
use lingo_async.Contracts.Parse.{outcome, validate_json, parsed, raised, decoded, body, parse_event}
use lingo_async.Contracts.Formats.{IsPlain, parse_event-formats}
use lingo_async.Contracts.Constraints.{parse_event-InRange}
use lingo_async.Contracts.Unwrap.{
  Encoders, IsEnvelope, IsLawful, IsBase64Envelope, parse_event-malformed,
}
use lingo_async.Tests.Fixtures.{codec, pydantic, ad_json, noon, malformed_fields}

abbrev pub ad : AdWatched
ad = record {
  user_id = "u1";
  placement = "home";
  idempotency_key = "k";
  lingots_awarded = pos 5;
  occurred_at = record { local = noon; offset = some (pos 0) };
}

ad_parses : parse_event codec pydantic (decoded ad_json) ≡ parsed (ad_watched ad)
unfolding parse_event validate validate_tagged validate_ad_watched lookup ◌>>=◌ check
ad_parses = refl

parse_event-InRange_example : pos 0 ≤ℤ pos 5
parse_event-InRange_example =
    parse_event-InRange codec pydantic (decoded ad_json) (ad_watched ad) ad_parses

-- base64 and UTF-8 at the texts of the payload "{}": its bytes are 1 here, those of its envelope 2.
abbrev pub encoders : Encoders
encoders = record {
  b64encode = λ raw. elim raw [ [] ↦ "" | n ∷ _ ↦ if eqb n 1 then "e30=" else "eyJ9" ];
  utf8 = λ s. if s == "{}" then 1 ∷ [] else 2 ∷ [];
}

abbrev delivery_info : Json
delivery_info =
    dict (field "exchange" (str "lingo-events") (field "routing_key" (str "events") end))

abbrev properties : Fields
properties = field "delivery_mode" (int (pos 2)) (
    field "delivery_info" delivery_info (
      field "priority" (int (pos 0))
        (field "body_encoding" (str "base64") (field "delivery_tag" (str "abc-123") end))))

-- The envelope of tests/test_contracts.py.
abbrev pub kombu_fields : Fields
kombu_fields = field "body" (str "e30=") (
    field "content-encoding" (str "utf-8") (
      field "content-type" (str "application/json")
        (field "headers" (dict end) (field "properties" (dict properties) end))))

abbrev pub kombu : Codec
kombu = record {
  loads = λ s.
      if s == "envelope"
      then some (dict kombu_fields)
      else if s == "malformed"
      then some (dict malformed_fields)
      else if s == "{}"
      then some (dict end)
      else none;
  dumps = λ _. "envelope";
  b64decode = λ s. if s == "e30=" then some (1 ∷ []) else none;
  b64decode_strict = λ s. if s == "eyJ9" then some (2 ∷ []) else none;
  decode = λ _ raw. elim raw [ [] ↦ ok "" | n ∷ _ ↦ if eqb n 1 then ok "{}" else ok "envelope" ];
}

pub kombu-IsEnvelope : IsEnvelope kombu encoders "{}" kombu_fields
unfolding lookup
kombu-IsEnvelope = record {
  properties = properties;
  body_in = refl;
  content_encoding = refl;
  content_type = refl;
  properties_in = refl;
  body_encoding = refl;
}

pub kombu-IsLawful : IsLawful kombu encoders "{}" kombu_fields
kombu-IsLawful = record {
  loads-dumps = refl;
  b64decode-payload = refl;
  decode-payload = refl;
  b64decode_strict-envelope = refl;
  decode-envelope = refl;
  loads-wire = λ fs e. cc;
}

payload-IsPlain : IsPlain kombu "{}"
unfolding lookup
payload-IsPlain = record { fields = end; loads = refl; no_body = refl; no_base64 = refl }

parse_event-formats_example :
    let read = outcome (validate_json pydantic (text "{}")) in
    (parse_event kombu pydantic (body (text "{}")) ≡ read)
    × (parse_event kombu pydantic (body (text "envelope")) ≡ read)
    × (parse_event kombu pydantic (body (text "eyJ9")) ≡ read)
parse_event-formats_example =
    parse_event-formats kombu pydantic "{}" encoders kombu_fields payload-IsPlain kombu-IsEnvelope
      kombu-IsLawful

abbrev base64_property : Fields
base64_property = field "body_encoding" (str "base64") end

malformed-IsBase64Envelope : IsBase64Envelope codec "malformed" malformed_fields base64_property "%"
unfolding lookup is_text
malformed-IsBase64Envelope = record {
  loads = refl;
  body_in = refl;
  content_type = refl;
  properties = refl;
  encoding = refl;
}

parse_event-malformed_example :
    parse_event codec pydantic (body (text "malformed")) ≡ raised (value_error "base64")
parse_event-malformed_example =
    parse_event-malformed codec "malformed" malformed_fields base64_property pydantic "%"
      malformed-IsBase64Envelope refl
