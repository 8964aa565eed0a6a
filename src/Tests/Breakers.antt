-- ===== src/Tests/Breakers.antt =====
-- The theorems on app/http/circuit_breaker.py and app/http/internal_token.py at concrete inputs.
use lingo_async.Prelude.{ℕ, ◌+◌, ◌≤◌, ◌<◌, ◌≡◌, ◌↔◌, refl, false, List, [], ◌∷◌, arith, length}
use lingo_async.Prelude.Int.{pos}
use lingo_async.Breaker.{open_state, new, allow, record_failure, record_success}
use lingo_async.Breaker.Laws.{
  IsValid, new-IsValid, failures_at, trips_exactly, Call, asks, fails, succeeds, run, FailedAt,
  refusal_has_cause, step,
}
use lingo_async.Tests.Fixtures.{fresh_breaker}

abbrev five_failures : List ℕ
five_failures = 1 ∷ 2 ∷ 3 ∷ 4 ∷ 5 ∷ []

fresh_breaker-IsValid : IsValid fresh_breaker
fresh_breaker-IsValid = record { positive = omega arith; below = omega arith }

trips_exactly_example :
    ((failures_at five_failures fresh_breaker).state ≡ open_state) ↔ (5 ≤ 0 + length five_failures)
trips_exactly_example = trips_exactly five_failures fresh_breaker fresh_breaker-IsValid refl

abbrev outage : List Call
outage = asks 1 ∷ fails 2 ∷ succeeds ∷ fails 3 ∷ fails 4 ∷ asks 5 ∷ []

outage_new-IsValid : IsValid (new (pos 2) 100)
outage_new-IsValid = new-IsValid (pos 2) 100

refused : (allow 50 (run (new (pos 2) 100) outage)).0 ≡ false
unfolding allow run new step record_failure record_success
refused = refl

refusal_has_cause_example :
    let b = run (new (pos 2) 100) outage in
    FailedAt b.opened_at outage × (50 < b.opened_at + b.cooldown)
refusal_has_cause_example = refusal_has_cause (pos 2) 100 outage 50 refused
