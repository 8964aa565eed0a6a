-- ===== src/Breaker/Laws.antt =====
-- The invariant of the breaker, and when it trips, refuses and recovers
-- (app/http/circuit_breaker.py).
use lingo_async.Prelude.{
  ℕ, suc, ◌+◌, ◌≤◌, ◌<◌, ◌≡◌, refl, ap, ◌↔◌, ◌⊎◌, inl, inr, Bool-cases, Bool, true, false, List, [],
  ◌∷◌, arith, length, leb, if◌then◌else◌,
}
use lingo_async.Prelude.Int.{ℤ, pos, negsuc}
use lingo_async.Breaker.{
  State, closed, open_state, half_open, Breaker, max_one, new, allow, record_success,
  record_failure,
}

-- The failures that count towards the threshold.
abbrev pub closed_failures : State → ℕ → ℕ
closed_failures closed n = n
closed_failures open_state n = 0
closed_failures half_open n = 0

-- The threshold is at least one, and a closed breaker has seen fewer failures than that.
pub record IsValid (b : Breaker) : Type 0 where
  pub positive : 1 ≤ b.threshold
  pub below : closed_failures b.state b.failures < b.threshold

max_one_pos : (t : ℤ) → 1 ≤ max_one t
max_one_pos (pos n) = ground arith
max_one_pos (negsuc n) = omega arith

pub new-IsValid : (t : ℤ) (cooldown : ℕ) → IsValid (new t cooldown)
unfolding new
new-IsValid t cooldown = record { positive = max_one_pos t; below = max_one_pos t }

pub allow-IsValid : (now : ℕ) (b : Breaker) → IsValid b → IsValid (allow now b).1
unfolding allow
allow-IsValid now b v = record {
  positive = ground arith;
  below = ground (arith, v.positive, v.below);
}

pub record_success-IsValid : (b : Breaker) → IsValid b → IsValid (record_success b)
unfolding record_success
record_success-IsValid b v = record { positive = v.positive; below = ground (arith, v.positive) }

pub record_failure-IsValid : (now : ℕ) (b : Breaker) → IsValid b → IsValid (record_failure now b)
unfolding record_failure
record_failure-IsValid now b v = record {
  positive = ground arith;
  below = ground (arith, v.positive, v.below);
}

-- An open breaker refuses a call, and does not change, exactly while its cooldown lasts; the
-- first call after that is let through as the probe.
pub allow-open :
    (now : ℕ) (b : Breaker)
    → b.state ≡ open_state
    → allow now b ≡ (
        if leb (b.opened_at + b.cooldown) now
        then (true, record b { state = half_open })
        else (false, b))
unfolding allow
allow-open now b h = ground arith

-- The breaker after a failure at each time of the list, oldest first.
unfoldable pub failures_at : List ℕ → Breaker → Breaker
failures_at [] b = b
failures_at (now ∷ later) b = failures_at later (record_failure now b)

failures_at-open :
    (ts : List ℕ) (b : Breaker)
    → b.threshold ≤ b.failures
    → b.state ≡ open_state
    → (failures_at ts b).state ≡ open_state
unfolding failures_at record_failure
failures_at-open [] b h e = e
failures_at-open (t ∷ ts) b h e =
    failures_at-open ts (record_failure t b) (ground arith) (ground arith)

counted : ℕ → Breaker → Breaker
counted t b = record b { failures = suc b.failures }

record_failure-below :
    (t : ℕ) (b : Breaker)
    → b.state ≡ closed
    → leb b.threshold (suc b.failures) ≡ false
    → record_failure t b ≡ counted t b
unfolding record_failure counted
record_failure-below t b e h = ground arith

-- A closed breaker that satisfies its invariant is open after a run of failures exactly when the
-- failures counted reach the threshold.
pub trips_exactly :
    (ts : List ℕ) (b : Breaker)
    → IsValid b
    → b.state ≡ closed
    → ((failures_at ts b).state ≡ open_state) ↔ (b.threshold ≤ b.failures + length ts)
unfolding failures_at record_failure counted
trips_exactly [] b v e = (λ o. cc, λ le. absurd (ground (arith, v.below)))
trips_exactly (t ∷ ts) b v e = elim (Bool-cases (leb b.threshold (suc b.failures))) [
  | inl trips ↦ (
    λ _. ground arith,
    λ _. failures_at-open ts (record_failure t b) (ground arith) (ground arith),
  )
  | inr stays ↦
      let ih =
        trips_exactly ts (counted t b) (record { positive = v.positive; below = ground arith }) e in
      rw (ap (failures_at ts) (record_failure-below t b e stays))
        (λ o. omega (arith, ih.0 o), λ le. ih.1 (omega arith))
]

-- The breaker's whole interface, as the client calls it.
pub data Call : Type 0 where
  asks fails : ℕ → Call
  succeeds : Call

unfoldable pub step : Breaker → Call → Breaker
step b (asks now) = (allow now b).1
step b (fails now) = record_failure now b
step b succeeds = record_success b

unfoldable pub run : Breaker → List Call → Breaker
run b [] = b
run b (c ∷ cs) = run (step b c) cs

step-IsValid : (b : Breaker) (c : Call) → IsValid b → IsValid (step b c)
unfolding step
step-IsValid b (asks now) v = allow-IsValid now b v
step-IsValid b (fails now) v = record_failure-IsValid now b v
step-IsValid b succeeds v = record_success-IsValid b v

-- A breaker that satisfies the invariant, a threshold of at least one and fewer failures than that
-- while closed, satisfies it after any calls of its methods.
pub run-IsValid : (b : Breaker) (cs : List Call) → IsValid b → IsValid (run b cs)
unfolding run
run-IsValid b [] v = v
run-IsValid b (c ∷ cs) v = run-IsValid (step b c) cs (step-IsValid b c v)

-- The calls hold a failure that was recorded at the given time.
abbrev pub FailedAt : ℕ → List Call → Type 0
FailedAt t [] = ⊥
FailedAt t (c ∷ cs) = (c ≡ fails t) ⊎ FailedAt t cs

opened_by :
    (b : Breaker) (cs : List Call)
    → (run b cs).state ≡ open_state
    → FailedAt (run b cs).opened_at cs
      ⊎ ((b.state ≡ open_state) × ((run b cs).opened_at ≡ b.opened_at))
unfolding run step allow record_failure record_success
opened_by b [] e = inr (e, refl)
opened_by b (asks now ∷ cs) e = ground (arith, opened_by (step b (asks now)) cs e)
opened_by b (fails now ∷ cs) e = ground (arith, opened_by (step b (fails now)) cs e)
opened_by b (succeeds ∷ cs) e = ground (arith, opened_by (step b succeeds) cs e)

-- When a breaker that has run from its construction refuses a call, one of the calls so far
-- recorded a failure, and less than a cooldown has passed since.
pub refusal_has_cause :
    (threshold : ℤ) (cooldown : ℕ) (cs : List Call) (now : ℕ)
    → let b = run (new threshold cooldown) cs in
      (allow now b).0 ≡ false → FailedAt b.opened_at cs × (now < b.opened_at + b.cooldown)
unfolding allow new
refusal_has_cause threshold cooldown cs now e =
    ground (arith, opened_by (new threshold cooldown) cs)

-- A failed probe opens the breaker for another full cooldown, however few failures were counted.
pub probe_failure :
    (b : Breaker) (now later : ℕ)
    → b.state ≡ half_open
    → later < now + b.cooldown
    → (allow later (record_failure now b)).0 ≡ false
unfolding allow record_failure
probe_failure b now later h lt = ground arith

-- What `allow` answers to calls at these times, with nothing recorded between them.
unfoldable pub asks_many : List ℕ → Breaker → List Bool
asks_many [] b = []
asks_many (now ∷ later) b = (allow now b).0 ∷ asks_many later (allow now b).1

unfoldable pub all_true : List ℕ → List Bool
all_true [] = []
all_true (_ ∷ ns) = true ∷ all_true ns

-- A half-open breaker lets any sequence of calls through between which neither a success nor a
-- failure is recorded.
pub half_open_admits_all :
    (b : Breaker) (times : List ℕ) → b.state ≡ half_open → asks_many times b ≡ all_true times
unfolding allow asks_many all_true
half_open_admits_all b [] h = refl
half_open_admits_all b (now ∷ later) h = ground (arith, half_open_admits_all b later h)
