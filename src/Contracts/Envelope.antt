-- ===== src/Contracts/Envelope.antt =====
-- `_try_kombu_envelope` and `_unwrap_kombu_envelope` of app/contracts/messages.py. `json.loads`,
-- `json.dumps`, base64 and `bytes.decode` are a parameter.
use lingo_async.Prelude.{ℕ, String, Bool, true, false, Option, none, some, List, if◌then◌else◌}
use lingo_async.Python.Exn.{Result, ok, err, value_error, type_error, ◌>>=◌}
use lingo_async.Python.Json.{Json, Fields, str, dict, lookup, or_else, is_text}

pub data Body : Type 0 where
  text : String → Body
  bytes : List ℕ → Body

-- In `loads` and the two `b64decode`s none is a ValueError; the strict one is that with
-- `validate=True`. `decode` takes the encoding's name.
pub record Codec : Type 0 where
  pub loads : String → Option Json
  pub dumps : Json → String
  pub b64decode : String → Option (List ℕ)
  pub b64decode_strict : String → Option (List ℕ)
  pub decode : String → List ℕ → Result String

abbrev pub has : String → Fields → Bool
has k fs = elim (lookup k fs) [ none ↦ false | some _ ↦ true ]

abbrev pub properties_of : Option Json → Option Fields
properties_of (some (dict ps)) = some ps
properties_of _ = none

module _ (c : Codec) where
  -- base64.b64decode(inner), which raises a TypeError unless it is given a text
  abbrev decoded_bytes : Json → Result (List ℕ)
  decoded_bytes (str s) = elim (c.b64decode s) [
    | none ↦ err (value_error "base64")
    | some raw ↦ ok raw
  ]
  decoded_bytes _ = err type_error

  -- raw.decode(encoding)
  abbrev decode_as : Json → List ℕ → Result String
  decode_as (str encoding) raw = c.decode encoding raw
  decode_as _ raw = err type_error

  abbrev plain_body : Json → String
  plain_body (str s) = s
  plain_body v = c.dumps v

  -- The payload of an envelope with these fields, body and properties.
  unfoldable pub open_envelope : Fields → Json → Fields → Result String
  open_envelope fs inner ps =
      if is_text "base64" (lookup "body_encoding" ps)
      then (do
        raw ← decoded_bytes inner
        decode_as (or_else (lookup "content-encoding" fs) (str "utf-8")) raw)
      else ok (plain_body inner)

  abbrev opened : Result String → Result (Option String)
  opened (ok s) = ok (some s)
  opened (err e) = err e

  -- The tests on a decoded value.
  unfoldable pub envelope_of : Json → Result (Option String)
  envelope_of (dict fs) = elim (lookup "body" fs) [
    | none ↦ ok none
    | some inner ↦
        if has "content-type" fs
        then elim (properties_of (lookup "properties" fs)) [
          | none ↦ ok none
          | some ps ↦ opened (open_envelope fs inner ps)
        ]
        else ok none
  ]
  envelope_of _ = ok none

  unfoldable pub try_kombu_envelope : String → Result (Option String)
  try_kombu_envelope s = elim (c.loads s) [ none ↦ ok none | some v ↦ envelope_of v ]

  -- The base64 layer round the whole envelope; none where the text is not base64 of UTF-8.
  abbrev outer_layer : String → Option String
  outer_layer s = elim (c.b64decode_strict s) [
    | none ↦ none
    | some raw ↦ elim (c.decode "utf-8" raw) [ ok t ↦ some t | err _ ↦ none ]
  ]

  abbrev or_body : Body → Option String → Body
  or_body body none = body
  or_body body (some s) = text s

  abbrev unwrap_outer : Body → Option String → Result Body
  unwrap_outer body none = ok body
  unwrap_outer body (some t) = do inner ← try_kombu_envelope t; ok (or_body body inner)

  abbrev unwrap_text : Body → String → Result Body
  unwrap_text body s = do
    inner ← try_kombu_envelope s
    elim inner [ some t ↦ ok (text t) | none ↦ unwrap_outer body (outer_layer s) ]

  unfoldable pub unwrap_kombu_envelope : Body → Result Body
  unwrap_kombu_envelope (text s) = unwrap_text (text s) s
  unwrap_kombu_envelope (bytes raw) = do s ← c.decode "utf-8" raw; unwrap_text (bytes raw) s
