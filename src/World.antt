-- ===== src/World.antt =====
-- What the worker can see and change outside itself, and the state of a warm container.
--
-- Everything outside is a parameter, `Env`: each answer is an arbitrary function of the trace of
-- all earlier effects, so an environment can change its mind after every one of them. The trace
-- is kept newest first.
pub mod Keeps
pub mod Gains
pub mod Preserves
pub mod Returns
pub mod Succeeds
use lingo_async.Prelude.{ℕ, String, Bool, Option, List, ◌∷◌}
use lingo_async.Prelude.Int.{ℤ}
use lingo_async.Python.Exn.{Exn, Result, ok, err}
use lingo_async.Python.Json.{Json}
use lingo_async.Settings.{Settings}
use lingo_async.Breaker.{Breaker}

pub data Method : Type 0 where
  get post : Method

-- The query string or the JSON body of a call to lingo-core.
pub data Payload : Type 0 where
  user : String → Payload
  progress : String → ℤ → Payload
  xp : String → ℤ → Option String → Bool → Payload

pub record HttpRequest : Type 0 where
  pub method : Method
  pub url : String
  pub payload : Payload
  pub authorization : String
  pub timeout : ℕ

-- `json` is what `Response.json()` returns or raises.
pub record Response : Type 0 where
  pub status_code : ℕ
  pub json : Result Json

-- The arguments of the leaderboard's `table.update_item`.
pub record XpUpdate : Type 0 where
  pub table : String
  pub pk : String
  pub sk : String
  pub amount : ℤ
  pub ttl : ℤ

-- A `datetime` in UTC.
pub record DateTime : Type 0 where
  pub year : ℕ
  pub month : ℕ
  pub day : ℕ
  pub hour : ℕ
  pub minute : ℕ
  pub second : ℕ
  pub microsecond : ℕ

-- `opened` and `closed` are those of an `httpx.Client`; `updated` is a write to the leaderboard
-- that succeeded.
pub data Effect : Type 0 where
  opened closed : Effect
  sent : HttpRequest → Effect
  slept : ℕ → Effect
  updated update_failed : XpUpdate → Effect
  read_clock : Effect
  read_ssm : String → Effect

abbrev pub Trace : Type 0
Trace = List Effect

-- httpx, boto3, the clocks, and Python's `str` of a JSON value.
pub record Env : Type 0 where
  pub settings : Settings
  pub monotonic : Trace → ℕ
  pub utc_now : Trace → DateTime
  pub http : Trace → HttpRequest → Result Response
  pub is_success : ℕ → Bool
  pub update_item : Trace → XpUpdate → Result (Unit {0})
  pub get_parameter : Trace → String → Result (Option (Option String))
  pub show : Json → String

-- The module-level state: the shared breaker, the quest latch and the cached token.
pub record World : Type 0 where
  pub breaker : Breaker
  pub quests_surface_unmounted : Bool
  pub cached_token : Option String
  pub trace : Trace

-- What was changed before a raise stays changed.
abbrev pub M {ℓ} : Type ℓ → Type ℓ
M A = World → Result A × World

abbrev pub pure {ℓ} : {A : Type ℓ} → A → M A
pure a w = (ok a, w)

abbrev pub raise {ℓ} : {A : Type ℓ} → Exn → M A
raise e w = (err e, w)

abbrev pub lift {ℓ} : {A : Type ℓ} → Result A → M A
lift r w = (r, w)

infixl 5 ◌>>=◌ ◌>>◌
abbrev pub ◌>>=◌ {ℓ κ} : {A : Type ℓ} {B : Type κ} → M A → (A → M B) → M B
◌>>=◌ m f w = let (r, w') = m w in elim r [ ok a ↦ f a w' | err e ↦ (err e, w') ]

abbrev pub ◌>>◌ {ℓ κ} : {A : Type ℓ} {B : Type κ} → M A → M B → M B
m >> k = m >>= λ _. k

abbrev pub emit : Effect → World → World
emit e w = record w { trace = e ∷ w.trace }
