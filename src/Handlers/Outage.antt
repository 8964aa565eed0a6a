-- ===== src/Handlers/Outage.antt =====
-- The handlers while the breaker is open and cooling down.
use lingo_async.Prelude.{ℕ, ◌+◌, ◌<◌, ◌≡◌, String, true, arith}
use lingo_async.Python.Exn.{err, circuit_open}
use lingo_async.Breaker.{Breaker, open_state}
use lingo_async.World.{Env, World, Trace, HttpRequest}
use lingo_async.World.Preserves.{Preserves}
use lingo_async.Token.{resolve_internal_service_token, fetch_from_ssm}
use lingo_async.Client.{xp_call, new, request, add_xp}
use lingo_async.Client.Counts.{sends}
use lingo_async.Client.Recovery.{request_fail_fast}
use lingo_async.Contracts.Messages.{XpAwarded}
use lingo_async.Handlers.{needs_credit, credit, credit_if_needed, handle_xp_awarded}
use lingo_async.Client.Frame.{Frame}

module _ (env : Env) (b : Breaker) (opened : b.state ≡ open_state)
    (cooling : (t : Trace) → env.monotonic t < b.opened_at + b.cooldown) where
  -- The breaker is still the one given, and no more than `n` requests have been sent.
  pub record Cut (n : ℕ) (w : World) : Type 0 where
    pub breaker : w.breaker ≡ b
    pub sent : sends w.trace ≡ n

  request_refused :
      (n : ℕ) (req : HttpRequest) (label : String) (w : World)
      → Cut n w
      → request env label req w ≡ (err (circuit_open label), w)
  request_refused n req label w c =
      request_fail_fast env req label w (rw (c.breaker) opened) (rw (c.breaker) (cooling w.trace))

  new-Cut : (n : ℕ) (w : World) → Cut n w → Cut n (new env w).1
  unfolding new resolve_internal_service_token fetch_from_ssm
  new-Cut n w c = record { breaker = ground (arith, c.breaker); sent = ground (arith, c.sent) }

  credit_refused :
      (n : ℕ) (m : XpAwarded) (w : World)
      → Cut n w
      → credit env m w ≡ (err (circuit_open "add_xp"), (new env w).1)
  unfolding credit add_xp
  credit_refused n m w c =
      let (client, w1) = new env w in
      ground (
        arith,
        request_refused n
            (xp_call client m.user_id m.amount m.learning_language_id m.leaderboard_opt_in) "add_xp"
            w1 (new-Cut n w c),
      )

  -- A credit that is due fails.
  pub handle_xp_awarded_refused :
      (n : ℕ) (m : XpAwarded) (w : World)
      → needs_credit m ≡ true
      → Cut n w
      → handle_xp_awarded env m w ≡ (err (circuit_open "add_xp"), (new env w).1)
  unfolding handle_xp_awarded credit_if_needed
  handle_xp_awarded_refused n m w due c = ground (arith, credit_refused n m w c)

  pub Cut-Frame : (n : ℕ) → Frame env (Cut n)
  unfolding Preserves
  Cut-Frame n = record {
    client = new-Cut n;
    asking = λ label req w c. rw (request_refused n req label w c) c;
    clock = λ w c. record { breaker = c.breaker; sent = c.sent };
    written = λ item w c. record { breaker = c.breaker; sent = c.sent };
    unwritten = λ item w c. record { breaker = c.breaker; sent = c.sent };
    latch = λ w c. record { breaker = c.breaker; sent = c.sent };
  }
