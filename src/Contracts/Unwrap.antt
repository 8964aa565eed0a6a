-- ===== src/Contracts/Unwrap.antt =====
-- `_unwrap_kombu_envelope` of app/contracts/messages.py against the producer's wire format.
use lingo_async.Prelude.{
  ℕ, String, ◌≡◌, ◌≢◌, refl, ap, ◌∙◌, inl, inr, true, none, some, List, arith, Option-cases,
}
use lingo_async.Python.Exn.{ok, err, value_error}
use lingo_async.Python.Json.{
  Json, Fields, null, bool, int, float, str, arr, dict, lookup, or_else, is_text,
}
use lingo_async.Contracts.Envelope.{
  text, Codec, has, open_envelope, envelope_of, try_kombu_envelope, unwrap_kombu_envelope,
}
use lingo_async.Contracts.Parse.{Pydantic, body, raised, parse_event}

-- What the producer's side has besides the codec: the encoders.
pub record Encoders : Type 0 where
  pub b64encode : List ℕ → String
  pub utf8 : String → List ℕ

module _ (c : Codec) (e : Encoders) (payload : String) (es : Fields) where
  abbrev pub payload_bytes : List ℕ
  payload_bytes = e.utf8 payload

  -- The fields of an envelope that kombu's SQS transport makes of a payload, in any order and with
  -- whatever headers, properties and other keys there are besides.
  pub record IsEnvelope : Type 0 where
    pub properties : Fields
    pub body_in : lookup "body" es ≡ some (str (e.b64encode payload_bytes))
    pub content_encoding : lookup "content-encoding" es ≡ some (str "utf-8")
    pub content_type : has "content-type" es ≡ true
    pub properties_in : lookup "properties" es ≡ some (dict properties)
    pub body_encoding : lookup "body_encoding" properties ≡ some (str "base64")

  abbrev envelope_text : String
  envelope_text = c.dumps (dict es)

  abbrev envelope_bytes : List ℕ
  envelope_bytes = e.utf8 envelope_text

  -- The body of the SQS message: base64 of the whole envelope.
  abbrev pub wire : String
  wire = e.b64encode envelope_bytes

  -- Documented behaviour of `json`, `base64` and UTF-8, at the texts of this payload and envelope:
  -- what one side encodes the other decodes. The last law holds since the JSON text of an object
  -- begins with a brace, which is no base64 character.
  pub record IsLawful : Type 0 where
    pub loads-dumps : c.loads envelope_text ≡ some (dict es)
    pub b64decode-payload : c.b64decode (e.b64encode payload_bytes) ≡ some payload_bytes
    pub decode-payload : c.decode "utf-8" payload_bytes ≡ ok payload
    pub b64decode_strict-envelope : c.b64decode_strict wire ≡ some envelope_bytes
    pub decode-envelope : c.decode "utf-8" envelope_bytes ≡ ok envelope_text
    pub loads-wire : (fs : Fields) → c.loads wire ≢ some (dict fs)

module _ (c : Codec) (e : Encoders) (payload : String) (es : Fields)
    (sealed : IsEnvelope c e payload es) (lawful : IsLawful c e payload es) where
  try_kombu_envelope-dumps : try_kombu_envelope c (c.dumps (dict es)) ≡ ok (some payload)
  unfolding try_kombu_envelope envelope_of open_envelope or_else is_text
  try_kombu_envelope-dumps = ground (
    arith, lawful.loads-dumps, sealed.body_in, sealed.content_type, sealed.properties_in,
    sealed.body_encoding, sealed.content_encoding, lawful.b64decode-payload, lawful.decode-payload,
  )

  not_dict : (v : Json) → ((fs : Fields) → v ≢ dict fs) → envelope_of c v ≡ ok none
  unfolding envelope_of
  not_dict (dict fs) n = absurd (n fs refl)
  not_dict null n = refl
  not_dict (bool _) n = refl
  not_dict (int _) n = refl
  not_dict (float _) n = refl
  not_dict (str _) n = refl
  not_dict (arr _) n = refl

  not_envelope : try_kombu_envelope c (wire c e payload es) ≡ ok none
  unfolding try_kombu_envelope
  not_envelope = elim (Option-cases (c.loads (wire c e payload es))) [
    | inl n ↦ rw (n, try_kombu_envelope)
    | inr (v, p) ↦
        rw (p, try_kombu_envelope) (not_dict v (λ fs q. lawful.loads-wire fs (p ∙ ap some q)))
  ]

  -- If json, base64 and UTF-8 decode what the producer encoded with them, `_unwrap_kombu_envelope`
  -- turns the two-layer SQS body of a payload back into that payload.
  pub unwrap-wire : unwrap_kombu_envelope c (text (wire c e payload es)) ≡ ok (text payload)
  unfolding unwrap_kombu_envelope
  unwrap-wire = ground (
    arith, not_envelope, lawful.b64decode_strict-envelope, lawful.decode-envelope,
    try_kombu_envelope-dumps,
  )

  -- So is the plain JSON envelope, with one base64 layer.
  pub unwrap-envelope : unwrap_kombu_envelope c (text (c.dumps (dict es))) ≡ ok (text payload)
  unfolding unwrap_kombu_envelope
  unwrap-envelope = rw try_kombu_envelope-dumps

module _ (c : Codec) (s : String) (fs ps : Fields) where
  -- A text that reads as a kombu envelope whose payload is marked as base64.
  pub record IsBase64Envelope (inner : String) : Type 0 where
    pub loads : c.loads s ≡ some (dict fs)
    pub body_in : lookup "body" fs ≡ some (str inner)
    pub content_type : has "content-type" fs ≡ true
    pub properties : lookup "properties" fs ≡ some (dict ps)
    pub encoding : is_text "base64" (lookup "body_encoding" ps) ≡ true

  try_kombu_envelope-malformed :
      (inner : String)
      → IsBase64Envelope inner
      → c.b64decode inner ≡ none
      → try_kombu_envelope c s ≡ err (value_error "base64")
  unfolding try_kombu_envelope envelope_of open_envelope
  try_kombu_envelope-malformed inner v bad =
      ground (arith, v.loads, v.body_in, v.content_type, v.properties, v.encoding)

  -- A body that reads as a kombu envelope whose payload is marked as base64 and is not base64 makes
  -- `parse_event` raise a ValueError that is no ValidationError.
  pub parse_event-malformed :
      (p : Pydantic) (inner : String)
      → IsBase64Envelope inner
      → c.b64decode inner ≡ none
      → parse_event c p (body (text s)) ≡ raised (value_error "base64")
  unfolding parse_event unwrap_kombu_envelope
  parse_event-malformed p inner v bad = ground (arith, try_kombu_envelope-malformed inner v bad)
