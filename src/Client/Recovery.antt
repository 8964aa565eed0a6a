-- ===== src/Client/Recovery.antt =====
-- `_request` and the shared breaker: failing fast, smoothing over a blip, giving up, and what a
-- probe leaves behind.
use lingo_async.Prelude.{ℕ, zero, suc, ◌+◌, ◌<◌, String, ◌≡◌, refl, true, Option, none, some, arith}
use lingo_async.Python.Exn.{Exn, ok, err, circuit_open}
use lingo_async.Python.Json.{Json}
use lingo_async.Breaker.{closed, open_state, allow, record_success}
use lingo_async.World.{Env, World, HttpRequest, opened, emit}
use lingo_async.Client.{is_transient, max_attempts, try_call, after_failure, attempts, request}
use lingo_async.Client.Counts.{sends}
use lingo_async.Client.Rounds.{tried, trace-try_call, failed_round, attempts_induction}
use lingo_async.Client.Bounds.{admitted}

module _ (env : Env) (req : HttpRequest) where
  -- While the breaker is open and cooling down, `_request` raises CircuitOpenError at once and
  -- changes nothing: nothing is opened, sent or slept.
  pub request_fail_fast :
      (label : String) (w : World)
      → w.breaker.state ≡ open_state
      → env.monotonic w.trace < w.breaker.opened_at + w.breaker.cooldown
      → request env label req w ≡ (err (circuit_open label), w)
  unfolding request allow
  request_fail_fast label w e lt = ground arith

  try_call-ok :
      (w : World) (v : Json)
      → (try_call env req w).0 ≡ ok v
      → ((try_call env req w).1.breaker.state ≡ closed)
        × ((try_call env req w).1.breaker.failures ≡ 0)
  unfolding try_call record_success
  try_call-ok w v e = ground arith

  attempts-ok :
      (left attempt : ℕ) (last : Option Exn) (w : World) (v : Json)
      → (attempts env req left attempt last w).0 ≡ ok v
      → ((attempts env req left attempt last w).1.breaker.state ≡ closed)
        × ((attempts env req left attempt last w).1.breaker.failures ≡ 0)
  attempts-ok =
      attempts_induction env req
        (λ _ _ _ w r.
          (v : Json) → r.0 ≡ ok v → (r.1.breaker.state ≡ closed) × (r.1.breaker.failures ≡ 0))
        (λ attempt last w v e. cc) (λ left attempt last w v e u f. try_call-ok (emit opened w) v e)
        (λ left attempt last w x e t v f. cc) (λ left attempt last w x e t ih v f. ih v f)

  -- A `_request` that returns a value leaves the breaker closed with no failure counted.
  pub request-ok :
      (label : String) (w : World) (v : Json)
      → (request env label req w).0 ≡ ok v
      → ((request env label req w).1.breaker.state ≡ closed)
        × ((request env label req w).1.breaker.failures ≡ 0)
  unfolding request
  request-ok label w v e =
      ground (arith, attempts-ok (max_attempts env.settings) 0 none (admitted env req w) v)

  -- The first `k` rounds fail with transient errors, and the one after them returns `v`.
  abbrev pub Blip : ℕ → ℕ → World → Json → Type 0
  Blip zero attempt w v = (tried env req w).0 ≡ ok v
  Blip (suc k) attempt w v =
      ((x : Exn) × ((tried env req w).0 ≡ err x) × (is_transient x ≡ true))
      × Blip k (attempt + 1) (failed_round env req attempt w) v

  failed_round-sends :
      (attempt : ℕ) (w : World) → sends (failed_round env req attempt w).trace ≡ sends w.trace + 1
  unfolding after_failure
  failed_round-sends attempt w = ground (arith, trace-try_call env req (emit opened w))

  attempts-Blip :
      (k left attempt : ℕ) (last : Option Exn) (w : World) (v : Json)
      → k < left
      → Blip k attempt w v
      → ((attempts env req left attempt last w).0 ≡ ok v)
        × (sends (attempts env req left attempt last w).1.trace ≡ sends w.trace + k + 1)
  unfolding attempts
  attempts-Blip k zero attempt last w v lt b = absurd (omega arith)
  attempts-Blip zero (suc left) attempt last w v lt b =
      rw (b, attempts) (refl, rw (trace-try_call env req (emit opened w)) (omega arith))
  attempts-Blip (suc k) (suc left) attempt last w v lt ((x, e, t), b) =
      let ih =
        attempts-Blip k left (attempt + 1) (some x) (failed_round env req attempt w) v (omega arith)
          b in
      rw (e, attempts) (rw (t, attempts) (ih.0, omega (arith, ih.1, failed_round-sends attempt w)))

  -- If the first k rounds of an admitted `_request` fail with transient errors, k is below the
  -- number of attempts and the next round succeeds, the call returns that answer after k + 1 HTTP
  -- calls.
  pub request-Blip :
      (label : String) (k : ℕ) (w : World) (v : Json)
      → (allow (env.monotonic w.trace) w.breaker).0 ≡ true
      → k < max_attempts env.settings
      → Blip k 0 (admitted env req w) v
      → ((request env label req w).0 ≡ ok v)
        × (sends (request env label req w).1.trace ≡ sends w.trace + k + 1)
  unfolding request
  request-Blip label k w v a lt b =
      ground (arith, attempts-Blip k (max_attempts env.settings) 0 none (admitted env req w) v lt b)
