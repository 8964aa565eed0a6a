-- ===== src/Client/Probe.antt =====
-- What `_request` does when lingo-core is down or rejects the call, and what that leaves of a
-- half-open breaker.
use lingo_async.Prelude.{
  ℕ, zero, ◌⊎◌, inl, inr, suc, ◌+◌, ◌≤◌, String, ◌≡◌, refl, true, false, Option, none, some, List,
  ◌∷◌, arith,
}
use lingo_async.Python.Exn.{Exn, Result, ok, err, http_status}
use lingo_async.Breaker.{Breaker, open_state, half_open, allow, record_failure}
use lingo_async.Breaker.Laws.{asks_many, all_true, half_open_admits_all}
use lingo_async.World.{Env, World, HttpRequest, Response, opened, emit, Trace}
use lingo_async.Client.{
  max_zero, is_transient, max_attempts, try_call, after_failure, attempts, request,
}
use lingo_async.Client.Counts.{sends}
use lingo_async.Client.Rounds.{tried, failed_round}
use lingo_async.Client.Bounds.{admitted, request_give_up}

module _ (env : Env) (req : HttpRequest) where
  -- An answer worth a retry: a network error, or a response with a transient error's status.
  abbrev pub FailsTransiently : Result Response → Type 0
  FailsTransiently (ok resp) =
      (env.is_success resp.status_code ≡ false)
      × (is_transient (http_status resp.status_code) ≡ true)
  FailsTransiently (err x) = is_transient x ≡ true

  -- lingo-core is down for this request: whatever happened before, it gets such an answer.
  abbrev pub Down : Type 0
  Down = (t : Trace) → FailsTransiently (env.http t req)

  try_call-answer :
      (w : World) (answer : Result Response)
      → env.http w.trace req ≡ answer
      → FailsTransiently answer
      → (x : Exn) × ((try_call env req w).0 ≡ err x) × (is_transient x ≡ true)
  unfolding try_call
  try_call-answer w (ok resp) e f = (http_status resp.status_code, ground arith, f.1)
  try_call-answer w (err x) e f = (x, ground arith, f)

  try_call-down :
      (w : World) → Down → (x : Exn) × ((try_call env req w).0 ≡ err x) × (is_transient x ≡ true)
  try_call-down w down = try_call-answer w (env.http w.trace req) refl (down w.trace)

  -- A failed call leaves the breaker to the loop.
  try_call-answer-breaker :
      (w : World) (answer : Result Response)
      → env.http w.trace req ≡ answer
      → FailsTransiently answer
      → (try_call env req w).1.breaker ≡ w.breaker
  unfolding try_call
  try_call-answer-breaker w (ok resp) e f = ground arith
  try_call-answer-breaker w (err x) e f = ground arith

  try_call-down-breaker : (w : World) → Down → (try_call env req w).1.breaker ≡ w.breaker
  try_call-down-breaker w down =
      try_call-answer-breaker w (env.http w.trace req) refl (down w.trace)

  attempts-down :
      (left attempt : ℕ) (last : Option Exn) (w : World)
      → Down
      → (x : Exn) × ((attempts env req (suc left) attempt last w).0 ≡ err x)
        × (is_transient x ≡ true)
  unfolding attempts
  attempts-down zero attempt last w down =
      let (x, e, t) = try_call-down (emit opened w) down in
      (x, rw (e, attempts) (rw (t, attempts) refl), t)
  attempts-down (suc left) attempt last w down =
      let (x, e, t) = try_call-down (emit opened w) down in
      let (y, f, u) =
        attempts-down left (attempt + 1) (some x) (failed_round env req attempt w) down in
      (y, rw (e, attempts) (rw (t, attempts) f), u)

  request-down :
      (label : String) (w : World)
      → (allow (env.monotonic w.trace) w.breaker).0 ≡ true
      → Down
      → (x : Exn) × ((request env label req w).0 ≡ err x) × (is_transient x ≡ true)
  unfolding request
  request-down label w a down =
      let (x, e, t) =
        attempts-down (max_zero env.settings.core_client_max_retries) 0 none (admitted env req w)
          down in
      (x, ground arith, t)

  -- While lingo-core answers a request only with transient failures, an admitted `_request` ends
  -- with a transient error after exactly `max_attempts` HTTP calls.
  pub request_down_gives_up :
      (label : String) (w : World)
      → (allow (env.monotonic w.trace) w.breaker).0 ≡ true
      → Down
      → ((x : Exn) × ((request env label req w).0 ≡ err x) × (is_transient x ≡ true))
        × (sends (request env label req w).1.trace ≡ sends w.trace + max_attempts env.settings)
  request_down_gives_up label w a down =
      let (x, e, t) = request-down label w a down in
      ((x, e, t), request_give_up env req label w x e t)

  -- The breaker's state is OPEN or HALF_OPEN.
  abbrev NotClosed : World → Type 0
  NotClosed w = (w.breaker.state ≡ open_state) ⊎ (w.breaker.state ≡ half_open)

  record_failure-open :
      (b : Breaker) (now : ℕ)
      → (b.state ≡ open_state) ⊎ (b.state ≡ half_open)
      → (record_failure now b).state ≡ open_state
  unfolding record_failure
  record_failure-open b now (inl o) = ground arith
  record_failure-open b now (inr o) = ground arith

  after_failure-open :
      (attempt : ℕ) (w : World)
      → NotClosed w
      → (after_failure env attempt w).breaker.state ≡ open_state
  unfolding after_failure
  after_failure-open attempt w n =
      ground (arith, record_failure-open w.breaker (env.monotonic w.trace) n)

  failed_round-open :
      (attempt : ℕ) (w : World)
      → Down
      → NotClosed w
      → (failed_round env req attempt w).breaker.state ≡ open_state
  failed_round-open attempt w down n =
      after_failure-open attempt (tried env req w).1
        (rw (try_call-down-breaker (emit opened w) down) n)

  attempts-down-open :
      (left attempt : ℕ) (last : Option Exn) (w : World)
      → Down
      → NotClosed w
      → (attempts env req (suc left) attempt last w).1.breaker.state ≡ open_state
  unfolding attempts
  attempts-down-open zero attempt last w down n =
      let (x, e, t) = try_call-down (emit opened w) down in
      rw (e, attempts) (rw (t, attempts) (failed_round-open attempt w down n))
  attempts-down-open (suc left) attempt last w down n =
      let (x, e, t) = try_call-down (emit opened w) down in
      rw (e, attempts)
        (rw (t, attempts)
          (attempts-down-open left (attempt + 1) (some x) (failed_round env req attempt w) down
            (inl (failed_round-open attempt w down n))))

  -- Against a core that is still down, the call that an open breaker lets through after its
  -- cooldown makes `max_attempts` HTTP calls, not one, and leaves the breaker open again.
  pub probe_is_retried :
      (label : String) (w : World)
      → w.breaker.state ≡ open_state
      → w.breaker.opened_at + w.breaker.cooldown ≤ env.monotonic w.trace
      → Down
      → (sends (request env label req w).1.trace ≡ sends w.trace + max_attempts env.settings)
        × ((request env label req w).1.breaker.state ≡ open_state)
  unfolding allow request
  probe_is_retried label w o h down = ground (
    arith,
    request_down_gives_up label w,
    attempts-down-open (max_zero env.settings.core_client_max_retries) 0 none (admitted env req w)
        down,
  )

  attempts_rejected :
      (left attempt : ℕ) (last : Option Exn) (w : World) (resp : Response)
      → env.http (opened ∷ w.trace) req ≡ ok resp
      → env.is_success resp.status_code ≡ false
      → is_transient (http_status resp.status_code) ≡ false
      → ((attempts env req (suc left) attempt last w).0 ≡ err (http_status resp.status_code))
        × ((attempts env req (suc left) attempt last w).1.breaker ≡ w.breaker)
        × (sends (attempts env req (suc left) attempt last w).1.trace ≡ sends w.trace + 1)
  unfolding attempts try_call
  attempts_rejected left attempt last w resp e s t = ground arith

  -- A response that is neither a success nor worth a retry surfaces from an admitted `_request` as
  -- HTTPStatusError after one HTTP call, and the breaker is as `allow` left it.
  request_rejected :
      (label : String) (w : World) (resp : Response)
      → (allow (env.monotonic w.trace) w.breaker).0 ≡ true
      → env.http (opened ∷ w.trace) req ≡ ok resp
      → env.is_success resp.status_code ≡ false
      → is_transient (http_status resp.status_code) ≡ false
      → let r = request env label req w in
        (r.0 ≡ err (http_status resp.status_code))
        × (r.1.breaker ≡ (allow (env.monotonic w.trace) w.breaker).1)
        × (sends r.1.trace ≡ sends w.trace + 1)
  unfolding request
  request_rejected label w resp a e s t = ground (
    arith,
    attempts_rejected (max_zero env.settings.core_client_max_retries) 0 none (admitted env req w)
        resp e s t,
  )

  -- A call let through by an open breaker after its cooldown that gets a response which is neither
  -- a success nor transient raises HTTPStatusError after one HTTP call and leaves the breaker half
  -- open, which lets every later call through until a success or a failure is recorded.
  pub probe_undecided :
      (label : String) (w : World) (resp : Response)
      → w.breaker.state ≡ open_state
      → w.breaker.opened_at + w.breaker.cooldown ≤ env.monotonic w.trace
      → env.http (opened ∷ w.trace) req ≡ ok resp
      → env.is_success resp.status_code ≡ false
      → is_transient (http_status resp.status_code) ≡ false
      → (times : List ℕ)
      → let r = request env label req w in
        (r.0 ≡ err (http_status resp.status_code))
        × (sends r.1.trace ≡ sends w.trace + 1)
        × (r.1.breaker.state ≡ half_open)
        × (asks_many times r.1.breaker ≡ all_true times)
  unfolding allow
  probe_undecided label w resp o h e s t times =
      let (surfaces, left, once) = request_rejected label w resp (ground arith) e s t in
      let half : (request env label req w).1.breaker.state ≡ half_open = rw (left) (ground arith) in
      (surfaces, once, half, half_open_admits_all (request env label req w).1.breaker times half)
