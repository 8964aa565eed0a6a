-- ===== src/Client.antt =====
-- app/http/lingo_core_client.py. httpx is the environment; the breaker is the one of the world.
pub mod Frame
pub mod Held
pub mod Grows
pub mod Health
pub mod Counts
pub mod Rounds
pub mod Bounds
pub mod Recovery
pub mod Probe
pub mod Keeps
use lingo_async.Prelude.{
  ℕ, zero, suc, ◌+◌, ◌*◌, ◌^◌, min, String, ◌<>◌, Bool, true, false, ◌||◌, not, Option, none, some,
  ltb, leb, eqb, if◌then◌else◌, or_default,
}
use lingo_async.Prelude.Int.{ℤ, pos, negsuc}
use lingo_async.Python.Exn.{
  Exn, Result, ok, err, http_status, transport, circuit_open, assertion_error,
}
use lingo_async.Python.Text.{rstrip_slash}
use lingo_async.Python.Json.{Json}
use lingo_async.Settings.{Settings}
use lingo_async.Breaker.{allow, record_success, record_failure}
use lingo_async.World.{
  Env, World, M, Method, Payload, user, progress, xp, HttpRequest, Response, opened, closed, sent,
  slept, emit, raise, lift, ◌>>=◌, ◌>>◌,
}
use lingo_async.Token.{resolve_internal_service_token}

-- _TIMEOUT, in milliseconds
abbrev pub timeout : ℕ
timeout = 5000

abbrev pub is_transient : Exn → Bool
is_transient (http_status code) = leb 500 code || eqb code 429
is_transient (transport _) = true
is_transient _ = false

abbrev pub backoff_delay : Settings → ℕ → ℕ
backoff_delay s attempt = min (s.core_client_backoff_base * 2 ^ attempt) s.core_client_backoff_max

-- max(0, retries)
abbrev max_zero : ℤ → ℕ
max_zero (pos n) = n
max_zero (negsuc _) = 0

abbrev pub max_attempts : Settings → ℕ
max_attempts s = suc (max_zero s.core_client_max_retries)

-- One HTTP call.
unfoldable pub send : Env → HttpRequest → M Response
send env req w = (env.http w.trace req, emit (sent req) w)

-- `Response.raise_for_status` of httpx
abbrev pub raise_for_status : Env → Response → Result (Unit {0})
raise_for_status env resp =
    if env.is_success resp.status_code then ok tt else err (http_status resp.status_code)

abbrev pub note_success : M (Unit {0})
note_success w = (ok tt, record w { breaker = record_success w.breaker })

abbrev pub note_failure : Env → World → World
note_failure env w = record w { breaker = record_failure (env.monotonic w.trace) w.breaker }

-- The body of the `try` in `_request`.
unfoldable pub try_call : Env → HttpRequest → M Json
unfolding send record_success
try_call env req = do
  resp ← send env req
  lift (raise_for_status env resp)
  note_success
  lift resp.json

-- The rest of the `except` clause after a transient failure.
unfoldable pub after_failure : Env → ℕ → World → World
unfolding record_failure
after_failure env attempt w =
    let w' = note_failure env w in
    if ltb (attempt + 1) (max_attempts env.settings)
    then emit (slept (backoff_delay env.settings attempt)) w'
    else w'

-- The loop of `_request` with `left` rounds to go; `last` is `last_exc`. The client is closed
-- last in each round, whatever happened.
unfoldable pub attempts : Env → HttpRequest → ℕ → ℕ → Option Exn → M Json
attempts env req zero attempt last w = (err (or_default last assertion_error), w)
attempts env req (suc left) attempt last w =
    let (r, w1) = try_call env req (emit opened w) in
    elim r [
      | ok v ↦ (ok v, emit closed w1)
      | err e ↦ elim (is_transient e) [
        | false ↦ (err e, emit closed w1)
        | true ↦
            attempts env req left (attempt + 1) (some e)
              (emit closed (after_failure env attempt w1))
      ]
    ]

-- `_request`; a `CircuitOpenError` carries the label.
unfoldable pub request : Env → String → HttpRequest → M Json
request env label req w =
    let (allowed, b) = allow (env.monotonic w.trace) w.breaker in
    let w' = record w { breaker = b } in
    if allowed
    then attempts env req (max_attempts env.settings) 0 none w'
    else (err (circuit_open label), w')

pub record LingoCoreClient : Type 0 where
  pub base : String
  pub authorization : String

-- `LingoCoreClient()`
unfoldable pub new : Env → World → LingoCoreClient × World
new env w =
    let (token, w') = resolve_internal_service_token env w in
    (
      record {
        base = rstrip_slash env.settings.lingo_core_url;
        authorization = "Bearer " <> token;
      },
      w',
    )

abbrev pub call : LingoCoreClient → Method → String → Payload → HttpRequest
call c method path payload = record {
  method = method;
  url = c.base <> path;
  payload = payload;
  authorization = c.authorization;
  timeout = timeout;
}

abbrev pub list_call : LingoCoreClient → String → HttpRequest
list_call c user_id = call c Method.get "/api/core/v1/quests/_internal/list" (user user_id)

-- The f-string of the path formats the quest's id by `str`.
abbrev pub bump_call : Env → LingoCoreClient → Json → String → ℤ → HttpRequest
bump_call env c quest_id user_id delta =
    call c Method.post ("/api/core/v1/quests/_internal/" <> (env.show quest_id <> "/progress"))
      (progress user_id delta)

abbrev pub xp_call : LingoCoreClient → String → ℤ → Option String → Bool → HttpRequest
xp_call c user_id amount language opt_in =
    call c Method.post "/api/core/v1/users/_internal/xp/add" (xp user_id amount language opt_in)

-- The boot probe: one call, no breaker and no retry.
unfoldable pub verify_internal_token : Env → LingoCoreClient → M (Unit {0})
unfolding send
verify_internal_token env c w =
    let (r, w') =
      (do resp ← send env (list_call c "__token_self_check__"); lift (raise_for_status env resp))
        (emit opened w) in
    (r, emit closed w')

unfoldable pub list_quests : Env → LingoCoreClient → String → M Json
list_quests env c user_id = request env "list_quests" (list_call c user_id)

unfoldable pub bump_progress : Env → LingoCoreClient → Json → String → ℤ → M Json
bump_progress env c quest_id user_id delta =
    request env "bump_progress" (bump_call env c quest_id user_id delta)

unfoldable pub add_xp : Env → LingoCoreClient → String → ℤ → Option String → Bool → M Json
add_xp env c user_id amount language opt_in =
    request env "add_xp" (xp_call c user_id amount language opt_in)
