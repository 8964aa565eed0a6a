-- ===== src/Contracts/Parse.antt =====
-- `parse_event` of app/contracts/messages.py.
use lingo_async.Prelude.{Option, none, some}
use lingo_async.Python.Exn.{Exn, ok, err}
use lingo_async.Python.Json.{Json}
use lingo_async.Contracts.Messages.{EventMessage}
use lingo_async.Contracts.Validate.{Coercions, validate}
use lingo_async.Contracts.Envelope.{Body, Codec, unwrap_kombu_envelope}

-- pydantic: its JSON parser, and its conversions for JSON and for Python input.
pub record Pydantic : Type 0 where
  pub from_json : Body → Option Json
  pub json_mode : Coercions
  pub python_mode : Coercions

pub data Input : Type 0 where
  body : Body → Input
  decoded : Json → Input

-- `invalid` is a `ValidationError`; `raised` is any other exception.
pub data Parsed : Type 0 where
  parsed : EventMessage → Parsed
  invalid : Parsed
  raised : Exn → Parsed

abbrev pub outcome : Option EventMessage → Parsed
outcome none = invalid
outcome (some m) = parsed m

-- `_EVENT_ADAPTER.validate_json`
unfoldable pub validate_json : Pydantic → Body → Option EventMessage
validate_json p b = elim (p.from_json b) [ none ↦ none | some v ↦ validate p.json_mode v ]

unfoldable pub parse_event : Codec → Pydantic → Input → Parsed
unfolding validate_json
parse_event c p (body b) = elim (unwrap_kombu_envelope c b) [
  | ok inner ↦ outcome (validate_json p inner)
  | err e ↦ raised e
]
parse_event c p (decoded v) = outcome (validate p.python_mode v)
