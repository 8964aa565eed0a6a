-- ===== src/Client/Grows.antt =====
-- No step of a handler takes an effect back.
use lingo_async.Prelude.{ℕ, ◌≤◌, String, Bool, arith, Option, none}
use lingo_async.Python.Exn.{Exn}
use lingo_async.World.{Env, World, Effect, HttpRequest, opened, emit}
use lingo_async.World.Keeps.{counted}
use lingo_async.World.Preserves.{Preserves}
use lingo_async.Token.{resolve_internal_service_token, fetch_from_ssm}
use lingo_async.Client.{max_attempts, after_failure, attempts, request, new}
use lingo_async.Client.Rounds.{tried, trace-try_call, failed_round, attempts_induction}
use lingo_async.Client.Bounds.{admitted}
use lingo_async.Client.Frame.{Frame}

module _ (p : Effect → Bool) (env : Env) where
  module _ (req : HttpRequest) where
    tried-grows : (w : World) → counted p w ≤ counted p (tried env req w).1
    tried-grows w = rw (trace-try_call env req (emit opened w)) (ground arith)

    failed_round-grows :
        (attempt : ℕ) (w : World) → counted p w ≤ counted p (failed_round env req attempt w)
    unfolding after_failure
    failed_round-grows attempt w = ground (arith, tried-grows w)

    attempts-grows :
        (left attempt : ℕ) (last : Option Exn) (w : World)
        → counted p w ≤ counted p (attempts env req left attempt last w).1
    attempts-grows =
        attempts_induction env req (λ _ _ _ w r. counted p w ≤ counted p r.1)
          (λ attempt last w. omega arith) (λ left attempt last w v e. ground (arith, tried-grows w))
          (λ left attempt last w x e t. ground (arith, tried-grows w))
          (λ left attempt last w x e t ih. ground (arith, failed_round-grows attempt w))

  module _ (n : ℕ) where
    abbrev pub AtLeast : World → Type 0
    AtLeast w = n ≤ counted p w

    pub request-grows :
        (label : String) (req : HttpRequest) → Preserves AtLeast (request env label req)
    unfolding Preserves request
    request-grows label req w le =
        ground
          (arith, le, attempts-grows req (max_attempts env.settings) 0 none (admitted env req w))

    pub new-grows : (w : World) → AtLeast w → AtLeast (new env w).1
    unfolding new resolve_internal_service_token fetch_from_ssm
    new-grows w le = ground (arith, le)

    pub AtLeast-Frame : Frame env AtLeast
    AtLeast-Frame = record {
      client = new-grows;
      asking = request-grows;
      clock = λ w le. ground (arith, le);
      written = λ item w le. ground (arith, le);
      unwritten = λ item w le. ground (arith, le);
      latch = λ w le. le;
    }
