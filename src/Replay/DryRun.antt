-- ===== src/Replay/DryRun.antt =====
-- What a dry run of the replay reports of a queue that keeps its messages visible.
use lingo_async.Prelude.{
  ℕ, zero, suc, ◌-◌, ◌≤◌, ◌<◌, min, ◌≡◌, ◌∙◌, refl, inl, inr, true, false, Option, some, List, [],
  ◌∷◌, arith, Bool-cases, ltb,
}
use lingo_async.Python.Exn.{Result, ok}
use lingo_async.Replay.{
  Message, Call, Sqs, Options, Run, limit, matches, message_body, log_call, next_receive,
  receive_batch, take_message, take_messages, rounds, replay, start,
}
use lingo_async.Replay.Termination.{peeked, received-dry}

module _ (sqs : Sqs) (o : Options) (m : Message) (dry : o.apply ≡ false)
    (passes : matches o.body_filter (message_body m) ≡ true)
    (only : (calls : List Call) (n : ℕ) → peeked sqs o calls n ≡ ok (m ∷ [])) where
  -- The same message is counted once more in each round.
  take_again :
      (r : Run)
      → ((take_messages sqs o (m ∷ []) r).0 ≡ ok tt)
        × ((take_messages sqs o (m ∷ []) r).1.result.matched ≡ suc r.result.matched)
  unfolding take_messages take_message
  take_again r = ground arith

  -- The run ends without an exception with `max_messages` matches.
  abbrev Full : Option (Result (Unit {0}) × Run) → Type 0
  Full out = (r : Run) × (out ≡ some (ok tt, r)) × (r.result.matched ≡ limit o)

  rounds-Full :
      (fuel : ℕ) (r : Run)
      → r.result.matched ≤ limit o
      → limit o - r.result.matched < fuel
      → Full (rounds sqs o fuel r)
  unfolding rounds
  rounds-Full zero r le lt = absurd (omega arith)
  rounds-Full (suc fuel) r le lt = elim (Bool-cases (ltb r.result.matched (limit o))) [
    | inr full ↦ (r, rw (full, rounds) refl, ground arith)
    | inl room ↦
        let (done, more) = take_again (log_call (next_receive o r) r) in
        let r' = (take_messages sqs o (m ∷ []) (log_call (next_receive o r) r)).1 in
        let (last, e, is_full) = rounds-Full fuel r' (ground arith) (ground arith) in
        let a =
          received-dry sqs o r dry
          ∙ only r.calls (min receive_batch (limit o - r.result.matched)) in
        (last, rw (room, rounds) (rw (a, rounds) (rw (done, rounds) e)), is_full)
  ]

  -- A dry run over a queue of one matching message, which every receive shows again, given a round
  -- more than `max_messages`, ends with `max_messages` matches.
  pub dry_run_recounts : (fuel : ℕ) → limit o < fuel → Full (replay sqs o fuel)
  unfolding replay
  dry_run_recounts fuel lt = rounds-Full fuel (start o) (omega arith) (omega arith)
