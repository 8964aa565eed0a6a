-- ===== src/Tests/Fixtures.antt =====
-- Environments, worlds and messages for the tests.
use lingo_async.EventLog.Sqlite
use lingo_async.Prelude.{
  ◌≢◌, ℕ, String, Bool, true, false, Option, none, some, [], ltb, leb, ◌&&◌, ◌==◌, if◌then◌else◌,
  length,
}
use lingo_async.Prelude.Int.{ℤ, pos}
use lingo_async.Python.Exn.{Result, ok}
use lingo_async.Python.Json.{Json, Fields, Float, null, bool, int, float, str, dict, end, field}
use lingo_async.Settings.{Settings, defaults}
use lingo_async.Breaker.{Breaker, closed, open_state}
use lingo_async.World.{Env, World, DateTime, HttpRequest, Response}
use lingo_async.Client.{LingoCoreClient, list_call}
use lingo_async.Contracts.Validate.{Coercions}
use lingo_async.Contracts.Envelope.{Body, text, bytes, Codec}
use lingo_async.Contracts.Parse.{Pydantic}
use lingo_async.Worker.{Host, SqsRecord}

abbrev pub noon : DateTime
noon = record {
  year = 2026;
  month = 9;
  day = 16;
  hour = 12;
  minute = 0;
  second = 0;
  microsecond = 0;
}

abbrev pub settings : Settings
settings = record defaults { internal_service_token = "secret" }

-- lingo-core answers every call alike; a monotonic millisecond passes with each effect.
abbrev pub env_with : Settings → Result Response → Env
env_with s answer = record {
  settings = s;
  monotonic = λ t. length t;
  utc_now = λ _. noon;
  http = λ _ _. answer;
  is_success = λ code. leb 200 code && ltb code 300;
  update_item = λ _ _. ok tt;
  get_parameter = λ _ _. ok (some (some "from-ssm"));
  show = λ _. "q1";
}

abbrev pub response : ℕ → Json → Result Response
response code v = ok (record { status_code = code; json = ok v })

abbrev pub up : Env
up = env_with settings (response 200 (dict end))

abbrev pub down : Env
down = env_with settings (response 503 null)

abbrev pub forbidding : Env
forbidding = env_with settings (response 403 null)

abbrev pub fresh_breaker : Breaker
fresh_breaker = record {
  threshold = 5;
  cooldown = 30000;
  failures = 0;
  state = closed;
  opened_at = 0;
}

abbrev pub tripped_breaker : Breaker
tripped_breaker = record fresh_breaker { failures = 5; state = open_state }

abbrev pub fresh : World
fresh = record {
  breaker = fresh_breaker;
  quests_surface_unmounted = false;
  cached_token = none;
  trace = [];
}

abbrev pub client : LingoCoreClient
client = record { base = "http://localhost:8000"; authorization = "Bearer secret" }

abbrev pub listing : HttpRequest
listing = list_call client "u1"

-- A breaker that tripped at 0 and whose cooldown is over.
abbrev pub cooled : World
cooled = record fresh { breaker = record tripped_breaker { cooldown = 0 } }

abbrev pub text_only : Json → Option String
text_only (str s) = some s
text_only _ = none

abbrev pub int_only : Json → Option ℤ
int_only (int n) = some n
int_only _ = none

abbrev pub float_only : Json → Option Float
float_only (float x) = some x
float_only _ = none

abbrev pub bool_only : Json → Option Bool
bool_only (bool b) = some b
bool_only _ = none

abbrev pub strict : Coercions
strict = record {
  to_str = text_only;
  to_int = int_only;
  to_float = float_only;
  to_bool = bool_only;
  to_stamp = λ _. some (record { local = noon; offset = some (pos 0) });
  is_literal_int = λ _ _. true;
}

abbrev pub friend_json : Json
friend_json = dict (
    field "type" (str "friend_added")
      (field "user_id" (str "u1") (field "friend_id" (str "u2") end)))

abbrev pub ad_json : Json
ad_json = dict (
    field "type" (str "ad_watched") (
      field "user_id" (str "u1") (
        field "placement" (str "home") (
          field "idempotency_key" (str "k")
            (field "lingots_awarded" (int (pos 5)) (field "occurred_at" (str "2026-09-16") end))))))

abbrev pub xp_json : Json
xp_json = dict (
    field "type" (str "xp_awarded") (
      field "user_id" (str "u1")
        (field "amount" (int (pos 10)) (field "source" (str "quest") end))))

-- An envelope whose payload is not base64.
abbrev pub malformed_fields : Fields
malformed_fields = field "body" (str "%") (
    field "content-type" (str "application/json")
      (field "properties" (dict (field "body_encoding" (str "base64") end)) end))

-- The JSON texts that the tests use are named by short words.
abbrev pub json_of : String → Option Json
json_of s =
    if s == "friend"
    then some friend_json
    else if s == "ad"
    then some ad_json
    else if s == "xp"
    then some xp_json
    else if s == "malformed"
    then some (dict malformed_fields)
    else none

abbrev pub codec : Codec
codec = record {
  loads = json_of;
  dumps = λ _. "";
  b64decode = λ _. none;
  b64decode_strict = λ _. none;
  decode = λ _ _. ok "";
}

abbrev pub json_of_body : Body → Option Json
json_of_body (text s) = json_of s
json_of_body (bytes _) = none

abbrev pub pydantic : Pydantic
pydantic = record { from_json = json_of_body; json_mode = strict; python_mode = strict }

abbrev pub host : Host
host = record {
  codec = codec;
  pydantic = pydantic;
  repr = λ _. "exception";
  errors_of = λ _. "errors";
  dumps = λ _. ok "outcomes";
}

abbrev pub message : String → String → SqsRecord
message id body = record { message_id = some id; body = some body }

pub closed-open : closed ≢ open_state
closed-open e = cc

-- SQLite serves every connection.
abbrev pub connected : Sqlite.Table → Result (Unit {0})
connected _ = ok tt
