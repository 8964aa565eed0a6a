-- ===== src/Contracts/Formats.antt =====
-- The formats of a body that `parse_event` of app/contracts/messages.py takes for one payload.
use lingo_async.Prelude.{String, ◌≡◌, refl, none, some, arith}
use lingo_async.Python.Exn.{ok}
use lingo_async.Python.Json.{Fields, dict, lookup}
use lingo_async.Contracts.Envelope.{
  text, Codec, envelope_of, try_kombu_envelope, unwrap_kombu_envelope,
}
use lingo_async.Contracts.Parse.{Pydantic, body, outcome, validate_json, parse_event}
use lingo_async.Contracts.Unwrap.{
  Encoders, IsEnvelope, IsLawful, wire, unwrap-wire, unwrap-envelope,
}

-- The payload is the JSON text of an object without a key "body"; it begins with a brace, so that it
-- is no base64.
pub record IsPlain (c : Codec) (payload : String) : Type 0 where
  pub fields : Fields
  pub loads : c.loads payload ≡ some (dict fields)
  pub no_body : lookup "body" fields ≡ none
  pub no_base64 : c.b64decode_strict payload ≡ none

module _ (c : Codec) (p : Pydantic) (payload : String) where
  unwrap-plain : IsPlain c payload → unwrap_kombu_envelope c (text payload) ≡ ok (text payload)
  unfolding unwrap_kombu_envelope try_kombu_envelope envelope_of
  unwrap-plain plain = ground (arith, plain.loads, plain.no_body, plain.no_base64)

  -- If json, base64 and UTF-8 decode what the producer encoded with them, and a payload is the JSON
  -- text of an object without a key body and is no base64, `parse_event` makes the same of the
  -- payload as it stands, of a JSON envelope of kombu's with the payload in base64, whatever
  -- headers, properties and other keys it has besides, and of that envelope in base64: it validates
  -- the payload.
  pub parse_event-formats :
      (e : Encoders) (es : Fields)
      → IsPlain c payload
      → IsEnvelope c e payload es
      → IsLawful c e payload es
      → let read = outcome (validate_json p (text payload)) in
        (parse_event c p (body (text payload)) ≡ read)
        × (parse_event c p (body (text (c.dumps (dict es)))) ≡ read)
        × (parse_event c p (body (text (wire c e payload es))) ≡ read)
  unfolding parse_event validate_json
  parse_event-formats e es plain sealed lawful = (
    rw (unwrap-plain plain, parse_event) refl,
    rw (unwrap-envelope c e payload es sealed lawful, parse_event) refl,
    rw (unwrap-wire c e payload es sealed lawful, parse_event) refl,
  )
