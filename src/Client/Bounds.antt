-- ===== src/Client/Bounds.antt =====
-- What one call of `_request` costs at most, and that it closes what it opens.
use lingo_async.Prelude.{ℕ, ◌+◌, String, ◌≡◌, true, Option, none, arith, count}
use lingo_async.Python.Exn.{Exn, err}
use lingo_async.Breaker.{allow}
use lingo_async.World.{Env, World, HttpRequest, opened, emit}
use lingo_async.Client.{is_transient, max_attempts, after_failure, attempts, request}
use lingo_async.Client.Counts.{is_opened, is_closed, sends}
use lingo_async.Client.Rounds.{trace-try_call, attempts_induction}

-- As many clients are closed between the two worlds as are opened.
abbrev pub Balanced : World → World → Type 0
Balanced w v =
    count is_opened v.trace + count is_closed w.trace
    ≡ count is_closed v.trace + count is_opened w.trace

module _ (env : Env) (req : HttpRequest) where
  -- The world in which the loop starts.
  abbrev pub admitted : World → World
  admitted w = record w { breaker = (allow (env.monotonic w.trace) w.breaker).1 }

  attempts-Balanced :
      (left attempt : ℕ) (last : Option Exn) (w : World)
      → Balanced w (attempts env req left attempt last w).1
  unfolding after_failure
  attempts-Balanced =
      attempts_induction env req (λ _ _ _ w r. Balanced w r.1) (λ attempt last w. omega arith)
        (λ left attempt last w v e. rw (trace-try_call env req (emit opened w)) (omega arith))
        (λ left attempt last w x e t. rw (trace-try_call env req (emit opened w)) (omega arith))
        (λ left attempt last w x e t ih. ground (arith, trace-try_call env req (emit opened w)))

  -- Every HTTP client that `_request` opens it also closes, whatever the answers.
  pub request-Balanced : (label : String) (w : World) → Balanced w (request env label req w).1
  unfolding request
  request-Balanced label w =
      ground (arith, attempts-Balanced (max_attempts env.settings) 0 none (admitted w))

  attempts_give_up :
      (left attempt : ℕ) (last : Option Exn) (w : World) (x : Exn)
      → (attempts env req left attempt last w).0 ≡ err x
      → is_transient x ≡ true
      → sends (attempts env req left attempt last w).1.trace ≡ sends w.trace + left
  unfolding after_failure
  attempts_give_up =
      attempts_induction env req
        (λ left _ _ w r.
          (x : Exn) → r.0 ≡ err x → is_transient x ≡ true → sends r.1.trace ≡ sends w.trace + left)
        (λ attempt last w x e t. omega arith) (λ left attempt last w v e x f t. cc)
        (λ left attempt last w y e f x g t. ground arith)
        (λ left attempt last w y e f ih x g t.
          ground (arith, ih x g t, trace-try_call env req (emit opened w)))

  -- It raises a transient error only after it has made every attempt it is allowed.
  pub request_give_up :
      (label : String) (w : World) (x : Exn)
      → (request env label req w).0 ≡ err x
      → is_transient x ≡ true
      → sends (request env label req w).1.trace ≡ sends w.trace + max_attempts env.settings
  unfolding request
  request_give_up label w x e t =
      ground (arith, attempts_give_up (max_attempts env.settings) 0 none (admitted w) x)
