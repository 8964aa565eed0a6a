-- ===== src/Client/Health.antt =====
-- A lingo-core that is up, and the calls of app/http/lingo_core_client.py against it.
use lingo_async.Prelude.{
  ℕ, ◌≤◌, ◌∙◌, sym, ◌∷◌, ◌≡◌, ◌≢◌, String, true, Option, none, some, All, arith,
}
use lingo_async.Python.Exn.{ok}
use lingo_async.Python.Json.{Json, Items, Fields, int, arr, dict, lookup, list_of}
use lingo_async.Python.Calendar.Months.{IsClock}
use lingo_async.Breaker.{open_state, closed, allow, Breaker}
use lingo_async.World.{
  Env, World, Trace, opened, Payload, user, progress, xp, HttpRequest, Response, XpUpdate,
}
use lingo_async.World.Succeeds.{Succeeds}
use lingo_async.Token.{resolve_internal_service_token, fetch_from_ssm}
use lingo_async.Client.{new, try_call, request}
use lingo_async.Client.Rounds.{tried}
use lingo_async.Client.Bounds.{admitted}
use lingo_async.Client.Recovery.{request-ok, request-Blip}

-- A count, which may be missing.
abbrev pub IsCount : Option Json → Type 0
IsCount none = Unit
IsCount (some (int _)) = Unit
IsCount (some _) = ⊥

-- The object has a "progress" that is an object with a count under "current".
pub record HasProgress (fs : Fields) : Type 0 where
  pub progress : Fields
  pub found : lookup "progress" fs ≡ some (dict progress)
  pub current : IsCount (lookup "current" progress)

-- A quest of the list, which has an id besides.
pub record IsQuest (fs : Fields) : Type 0 where
  pub id : Json
  pub id_found : lookup "id" fs ≡ some id
  pub progress : HasProgress fs

abbrev pub QuestObject : Json → Type 0
QuestObject (dict fs) = IsQuest fs
QuestObject _ = ⊥

pub record HasItems (fs : Fields) : Type 0 where
  pub items : Items
  pub found : lookup "items" fs ≡ some (arr items)
  pub quests : All QuestObject (list_of items)

-- What the worker relies on in lingo-core's answers: a list of quests, a quest, and an object.
abbrev pub Fits : Payload → Json → Type 0
Fits (user _) (dict fs) = HasItems fs
Fits (progress _ _) (dict fs) = HasProgress fs
Fits (xp _ _ _ _) (dict fs) = Unit
Fits _ _ = ⊥

-- The answer to a request is a success with a body that fits.
pub record IsAnswered (env : Env) (t : Trace) (req : HttpRequest) : Type 0 where
  pub response : Response
  pub answered : env.http t req ≡ ok response
  pub success : env.is_success response.status_code ≡ true
  pub body : Json
  pub decoded : response.json ≡ ok body
  pub fits : Fits req.payload body

-- lingo-core answers every call well, the leaderboard takes every write, and the clock reads a time
-- of the calendar up to year 9998.
pub record IsHealthy (env : Env) : Type 0 where
  pub answers : (t : Trace) (req : HttpRequest) → IsAnswered env t req
  pub writes : (t : Trace) (item : XpUpdate) → env.update_item t item ≡ ok tt
  pub clock : (t : Trace) → IsClock (env.utc_now t)
  pub year : (t : Trace) → (env.utc_now t).year ≤ 9998

-- The breaker is closed or half open.
abbrev pub IsUp : World → Type 0
IsUp w = w.breaker.state ≢ open_state

closed-open : closed ≡ open_state → ⊥
closed-open e = cc

allow_up : (now : ℕ) (b : Breaker) → b.state ≢ open_state → (allow now b).0 ≡ true
unfolding allow
allow_up now b up = ground arith

module _ (env : Env) (healthy : IsHealthy env) where
  pub new-IsUp : (w : World) → IsUp w → IsUp (new env w).1
  unfolding new resolve_internal_service_token fetch_from_ssm
  new-IsUp w up = let same : (new env w).1.breaker ≡ w.breaker = ground arith in rw (same) up

  tried_ok :
      (req : HttpRequest) (w : World)
      → (tried env req w).0 ≡ ok (healthy.answers (opened ∷ w.trace) req).body
  unfolding try_call
  tried_ok req w =
      let a = healthy.answers (opened ∷ w.trace) req in
      ground (arith, a.answered, a.success, a.decoded)

  pub request-Succeeds :
      (label : String) (req : HttpRequest)
      → Succeeds IsUp (Fits req.payload) (request env label req)
  unfolding Succeeds
  request-Succeeds label req w up =
      let a = healthy.answers (opened ∷ w.trace) req in
      let allowed = allow_up (env.monotonic w.trace) w.breaker up in
      let returned =
        (request-Blip env req label 0 w a.body allowed (omega arith)
          (tried_ok req (admitted env req w))).0 in
      record {
        value = a.body;
        returned = returned;
        good = a.fits;
        after = λ e. closed-open (sym (request-ok env req label w a.body returned).0 ∙ e);
      }
