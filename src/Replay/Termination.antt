-- ===== src/Replay/Termination.antt =====
-- When the outer loop of the replay ends. On SQS, a receive with a visibility timeout of 0 leaves
-- the messages where they are, so a dry run can be given the same ones again and again.
use lingo_async.Prelude.{
  ℕ, zero, suc, ◌-◌, ◌≤◌, ◌<◌, min, String, ◌≡◌, ◌∙◌, refl, inl, inr, true, false, Option, none,
  some, List, [], ◌∷◌, arith, Bool-cases, ltb, All,
}
use lingo_async.Python.Exn.{Result, ok, err, Result-cases}
use lingo_async.Replay.{
  Message, Call, Sqs, Options, Run, limit, matches, message_body, log_call, skip_one, next_receive,
  received, receive_batch, take_message, take_messages, rounds, replay, start,
}
use lingo_async.Replay.Counts.{take_message-matched}

matches-none :
    {needle : Option String} → needle ≡ none → (body : String) → matches needle body ≡ true
matches-none e body = rw e refl

module _ (sqs : Sqs) (o : Options) where
  take_messages-grow :
      (ms : List Message) (r : Run) → r.result.matched ≤ (take_messages sqs o ms r).1.result.matched
  unfolding take_messages
  take_messages-grow [] r = omega arith
  take_messages-grow (m ∷ ms) r =
      let r' = (take_message sqs o m r).1 in
      let step = take_message-matched sqs o m r in ground (arith, step, take_messages-grow ms r')

  take_messages-progress :
      (m : Message) (ms : List Message) (r : Run)
      → matches o.body_filter (message_body m) ≡ true
      → suc r.result.matched ≤ (take_messages sqs o (m ∷ ms) r).1.result.matched
  unfolding take_messages
  take_messages-progress m ms r t =
      ground
        (arith, take_message-matched sqs o m r, take_messages-grow ms (take_message sqs o m r).1)

  -- A round that is given messages ends, if the rounds after it do.
  after_batch :
      (fuel : ℕ) (r : Run) (m : Message) (ms : List Message)
      → ltb r.result.matched (limit o) ≡ true
      → received sqs o r ≡ ok (m ∷ ms)
      → let r' = (take_messages sqs o (m ∷ ms) (log_call (next_receive o r) r)).1 in
        (out : Result (Unit {0}) × Run) × (rounds sqs o fuel r' ≡ some out)
        → (out : Result (Unit {0}) × Run) × (rounds sqs o (suc fuel) r ≡ some out)
  unfolding rounds
  after_batch fuel r m ms room a (out, e) =
      let r' = (take_messages sqs o (m ∷ ms) (log_call (next_receive o r) r)).1 in
      elim (Result-cases (take_messages sqs o (m ∷ ms) (log_call (next_receive o r) r)).0) [
        | inl (_, d) ↦ (out, rw (room, rounds) (rw (a, rounds) (rw (d, rounds) e)))
        | inr (x, d) ↦ ((err x, r'), rw (room, rounds) (rw (a, rounds) (rw (d, rounds) refl)))
      ]

  rounds_end :
      (fuel : ℕ) (r : Run)
      → o.body_filter ≡ none
      → limit o - r.result.matched < fuel
      → (out : Result (Unit {0}) × Run) × (rounds sqs o fuel r ≡ some out)
  unfolding rounds
  rounds_end zero r f lt = absurd (omega arith)
  rounds_end (suc fuel) r f lt = elim (Bool-cases (ltb r.result.matched (limit o))) [
    | inr full ↦ ((ok tt, r), rw (full, rounds) refl)
    | inl room ↦
        elim (received sqs o r)
            as (λ answer.
              received sqs o r ≡ answer
              → (out : Result (Unit {0}) × Run) × (rounds sqs o (suc fuel) r ≡ some out)) [
                | err x ↦ λ a. (
                  (err x, log_call (next_receive o r) r),
                  rw (room, rounds) (rw (a, rounds) refl),
                )
                | ok [] ↦ λ a. (
                  (ok tt, log_call (next_receive o r) r),
                  rw (room, rounds) (rw (a, rounds) refl),
                )
                | ok (m ∷ ms) ↦ λ a. after_batch fuel r m ms room a (
                    rounds_end fuel (take_messages sqs o (m ∷ ms) (log_call (next_receive o r) r)).1
                      f
                      (grind (
                        arith,
                        take_messages-progress m ms (log_call (next_receive o r) r)
                            (matches-none f (message_body m)),
                      )))
              ]
          refl
  ]

  -- Without a filter the replay ends whatever SQS answers: a round more than `max_messages` is fuel
  -- enough.
  pub replay_ends :
      (fuel : ℕ)
      → o.body_filter ≡ none
      → limit o < fuel
      → (out : Result (Unit {0}) × Run) × (replay sqs o fuel ≡ some out)
  unfolding replay
  replay_ends fuel f lt = rounds_end fuel (start o) f (omega arith)

  -- The answers to a dry run's receives.
  abbrev pub peeked : List Call → ℕ → Result (List Message)
  peeked calls n = sqs.receive_message calls n 0

  abbrev Skips : Message → Type 0
  Skips m = matches o.body_filter (message_body m) ≡ false

  take_messages-Skips :
      (ms : List Message) (r : Run)
      → All Skips ms
      → ((take_messages sqs o ms r).0 ≡ ok tt)
        × ((take_messages sqs o ms r).1.result.matched ≡ r.result.matched)
  unfolding take_messages take_message
  take_messages-Skips [] r a = (refl, refl)
  take_messages-Skips (m ∷ ms) r (skips, rest) =
      ground (arith, take_messages-Skips ms (skip_one r) rest)

  -- SQS always has messages to show, and none of them passes the filter.
  abbrev pub NoneMatch : Type 0
  NoneMatch =
      (calls : List Call) (n : ℕ)
      → (m : Message) × (ms : List Message) × (peeked calls n ≡ ok (m ∷ ms)) × All Skips (m ∷ ms)

  pub received-dry :
      (r : Run)
      → o.apply ≡ false
      → received sqs o r ≡ peeked r.calls (min receive_batch (limit o - r.result.matched))
  received-dry r dry = ground arith

  pub room-ltb : (r : Run) → r.result.matched < limit o → ltb r.result.matched (limit o) ≡ true
  room-ltb r lt = ground arith

  rounds_run_on :
      (fuel : ℕ) (r : Run)
      → o.apply ≡ false
      → r.result.matched < limit o
      → NoneMatch
      → rounds sqs o fuel r ≡ none
  unfolding rounds
  rounds_run_on zero r dry lt none_match = refl
  rounds_run_on (suc fuel) r dry lt none_match =
      let (m, ms, e, all) = none_match r.calls (min receive_batch (limit o - r.result.matched)) in
      let r1 = log_call (next_receive o r) r in
      let (done, same) = take_messages-Skips (m ∷ ms) r1 all in
      rw (room-ltb r lt, rounds)
        (rw (received-dry r dry ∙ e, rounds)
          (rw (done, rounds)
            (rounds_run_on fuel (take_messages sqs o (m ∷ ms) r1).1 dry (omega (arith, same))
              none_match)))

  -- A dry run with a positive `max_messages` for which SQS keeps showing messages that do not pass
  -- the filter has not ended after any number of rounds.
  pub dry_run_runs_on :
      (fuel : ℕ) → o.apply ≡ false → 0 < limit o → NoneMatch → replay sqs o fuel ≡ none
  unfolding replay
  dry_run_runs_on fuel dry lt none_match = rounds_run_on fuel (start o) dry lt none_match
