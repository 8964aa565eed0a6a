-- ===== src/Breaker.antt =====
-- app/http/circuit_breaker.py. The clock is an argument, `now`, in milliseconds of
-- `time.monotonic`; only the calls that read the clock in the source use it.
pub mod Laws
use lingo_async.Prelude.{ℕ, suc, ◌+◌, Bool, true, false, ◌||◌, leb, if◌then◌else◌}
use lingo_async.Prelude.Int.{ℤ, pos, negsuc}

pub data State : Type 0 where
  closed open_state half_open : State

pub record Breaker : Type 0 where
  pub threshold : ℕ
  pub cooldown : ℕ
  pub failures : ℕ
  pub state : State
  pub opened_at : ℕ

-- max(1, threshold)
abbrev pub max_one : ℤ → ℕ
max_one (pos n) = if leb 1 n then n else 1
max_one (negsuc _) = 1

unfoldable pub new : ℤ → ℕ → Breaker
new threshold cooldown = record {
  threshold = max_one threshold;
  cooldown = cooldown;
  failures = 0;
  state = closed;
  opened_at = 0;
}

abbrev allow_in : State → ℕ → Breaker → Bool × Breaker
allow_in open_state now b =
    if leb (b.opened_at + b.cooldown) now
    then (true, record b { state = half_open })
    else (false, b)
allow_in closed now b = (true, b)
allow_in half_open now b = (true, b)

-- `now - opened_at >= cooldown` is tested as `opened_at + cooldown <= now`.
unfoldable pub allow : ℕ → Breaker → Bool × Breaker
allow now b = allow_in b.state now b

unfoldable pub record_success : Breaker → Breaker
record_success b = record b { failures = 0; state = closed }

abbrev pub is_half_open : State → Bool
is_half_open half_open = true
is_half_open closed = false
is_half_open open_state = false

unfoldable pub record_failure : ℕ → Breaker → Breaker
record_failure now b =
    if is_half_open b.state || leb b.threshold (suc b.failures)
    then record b { failures = suc b.failures; state = open_state; opened_at = now }
    else record b { failures = suc b.failures }
