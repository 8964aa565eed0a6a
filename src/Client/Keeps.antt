-- ===== src/Client/Keeps.antt =====
-- What a call into lingo-core leaves uncounted: a kind of effect that its request is not of.
use lingo_async.Prelude.{
  ℕ, String, ◌≡◌, refl, Bool, true, false, suc, min, ◌≤◌, Option, none, arith, ◌+◌,
}
use lingo_async.Python.Exn.{Exn}
use lingo_async.Breaker.{allow}
use lingo_async.World.{Env, World, Effect, HttpRequest, sent, opened, emit, read_ssm}
use lingo_async.World.Keeps.{IsQuiet, counted, Keeps}
use lingo_async.Token.{resolve_internal_service_token, fetch_from_ssm, ssm_parameter_name}
use lingo_async.Client.{backoff_delay, max_attempts, after_failure, attempts, request, new}
use lingo_async.Client.Rounds.{tried, trace-try_call, failed_round, attempts_induction}
use lingo_async.Client.Bounds.{admitted}

module _ (p : Effect → Bool) (quiet : IsQuiet p) (env : Env) (req : HttpRequest)
    (other : p (sent req) ≡ false) where
  tried-counted : (w : World) → counted p (tried env req w).1 ≡ counted p w
  tried-counted w =
      rw (trace-try_call env req (emit opened w)) (ground (arith, quiet.opening, other))

  failed_round-counted :
      (attempt : ℕ) (w : World) → counted p (failed_round env req attempt w) ≡ counted p w
  unfolding after_failure
  failed_round-counted attempt w =
      ground
        (arith, tried-counted w, quiet.closing, quiet.sleeping (backoff_delay env.settings attempt))

  attempts-Keeps :
      (left attempt : ℕ) (last : Option Exn) (w : World)
      → counted p (attempts env req left attempt last w).1 ≡ counted p w
  attempts-Keeps =
      attempts_induction env req (λ _ _ _ w r. counted p r.1 ≡ counted p w) (λ attempt last w. refl)
        (λ left attempt last w v e. ground (arith, tried-counted w, quiet.closing))
        (λ left attempt last w x e t. ground (arith, tried-counted w, quiet.closing))
        (λ left attempt last w x e t ih. ground (arith, failed_round-counted attempt w))

  pub request-Keeps : (label : String) → Keeps p (request env label req)
  unfolding Keeps request
  request-Keeps label w =
      ground (arith, attempts-Keeps (max_attempts env.settings) 0 none (admitted env req w))

pub new-Keeps :
    (p : Effect → Bool) (env : Env) (w : World)
    → p (read_ssm ssm_parameter_name) ≡ false
    → counted p (new env w).1 ≡ counted p w
unfolding new resolve_internal_service_token fetch_from_ssm
new-Keeps p env w h = ground arith

-- A call does count the effects that its request is of: one for each round.
module _ (p : Effect → Bool) (quiet : IsQuiet p) (env : Env) (req : HttpRequest)
    (same : p (sent req) ≡ true) where
  tried-suc : (w : World) → counted p (tried env req w).1 ≡ suc (counted p w)
  tried-suc w = rw (trace-try_call env req (emit opened w)) (ground (arith, quiet.opening, same))

  failed_round-suc :
      (attempt : ℕ) (w : World) → counted p (failed_round env req attempt w) ≡ suc (counted p w)
  unfolding after_failure
  failed_round-suc attempt w =
      ground
        (arith, tried-suc w, quiet.closing, quiet.sleeping (backoff_delay env.settings attempt))

  -- At least one if there is a round to go, and at most one for each round.
  abbrev Between : ℕ → World → World → Type 0
  Between left w v = (min left 1 + counted p w ≤ counted p v) × (counted p v ≤ left + counted p w)

  attempts-Between :
      (left attempt : ℕ) (last : Option Exn) (w : World)
      → Between left w (attempts env req left attempt last w).1
  attempts-Between =
      attempts_induction env req (λ left _ _ w r. Between left w r.1)
        (λ attempt last w. omega arith)
        (λ left attempt last w v e. ground (arith, tried-suc w, quiet.closing))
        (λ left attempt last w x e t. ground (arith, tried-suc w, quiet.closing))
        (λ left attempt last w x e t ih. ground (arith, failed_round-suc attempt w))

  pub request-counted :
      (label : String) (w : World)
      → (allow (env.monotonic w.trace) w.breaker).0 ≡ true
      → (1 + counted p w ≤ counted p (request env label req w).1)
        × (counted p (request env label req w).1 ≤ max_attempts env.settings + counted p w)
  unfolding request
  request-counted label w a =
      ground (arith, attempts-Between (max_attempts env.settings) 0 none (admitted env req w))
