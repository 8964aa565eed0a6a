-- ===== src/Replay/Rounds.antt =====
-- What holds of a whole run of the replay, wherever it stops.
use lingo_async.Prelude.{
  subst, ℕ, zero, suc, ◌≤◌, ◌≡◌, refl, inl, inr, some, List, [], ◌∷◌, ◌++◌, append_assoc, All,
  All-imp, arith, Bool-cases, ltb, leb,
}
use lingo_async.Python.Exn.{Result, ok, err, Result-cases}
use lingo_async.Replay.{
  Message, Sqs, Options, Run, limit, matches, message_body, log_call, next_receive, received,
  take_message, take_messages, rounds, replay, start,
}
use lingo_async.Replay.Counts.{
  IsReceived, IsSound, take_message-IsSound, take_message-IsReceived, take_message-matched,
}

some-some {ℓ} : {A : Type ℓ} {a b : A} → some a ≡ some b → a ≡ b
some-some e = cc

module _ (sqs : Sqs) (o : Options) where
  -- Where the inner loop may stop.
  abbrev pub IsWithin : Result (Unit {0}) × Run → Type 0
  IsWithin out = IsSound sqs o out.1 × (out.1.result.matched ≤ limit o)

  take_messages-IsWithin :
      (ms : List Message) (r : Run)
      → IsSound sqs o r
      → All (λ m. IsReceived sqs m r.calls) ms
      → suc r.result.matched ≤ limit o
      → IsWithin (take_messages sqs o ms r)
  unfolding take_messages
  take_messages-IsWithin [] r s known room = (s, omega arith)
  take_messages-IsWithin (m ∷ ms) r s known room =
      let r' = (take_message sqs o m r).1 in
      let s' = take_message-IsSound sqs o m r s known.0 in
      let known' =
        All-imp (λ x. IsReceived sqs x r.calls) (λ x. IsReceived sqs x r'.calls)
          (λ x. take_message-IsReceived sqs o x m r) ms known.1 in
      let matched = take_message-matched sqs o m r in
      elim (Result-cases (take_message sqs o m r).0) [
        | inr (_, e) ↦ rw (e, take_messages) (s', ground (arith, matched))
        | inl (_, e) ↦
            rw (e, take_messages)
              (elim (Bool-cases (matches o.body_filter (message_body m))) [
                | inr f ↦
                    rw (f, take_messages)
                      (take_messages-IsWithin ms r' s' known' (ground (arith, matched)))
                | inl t ↦
                    rw (t, take_messages)
                      (elim (Bool-cases (leb (limit o) r'.result.matched)) [
                        | inl full ↦ rw (full, take_messages) (s', ground (arith, matched))
                        | inr left ↦
                            rw (left, take_messages)
                              (take_messages-IsWithin ms r' s' known' (ground arith))
                      ])
              ])
      ]

  -- Each message of an answer has been received.
  all-IsReceived :
      (r : Run) (pre ms : List Message)
      → received sqs o r ≡ ok (pre ++ ms)
      → All (λ m. IsReceived sqs m (log_call (next_receive o r) r).calls) ms
  all-IsReceived r pre [] e = tt
  all-IsReceived r pre (m ∷ ms) e =
      ((pre, ms, e), all-IsReceived r (pre ++ m ∷ []) ms (rw (append_assoc pre (m ∷ []) ms) e))

  received-IsSound : (r : Run) → IsSound sqs o r → IsSound sqs o (log_call (next_receive o r) r)
  received-IsSound r s = record {
    scans = s.scans;
    previews = s.previews;
    moves = s.moves;
    deletes = s.deletes;
    sends = s.sends;
    order = s.order;
  }

  pub rounds-IsWithin :
      (fuel : ℕ) (r : Run) (out : Result (Unit {0}) × Run)
      → IsSound sqs o r
      → r.result.matched ≤ limit o
      → rounds sqs o fuel r ≡ some out
      → IsWithin out
  unfolding rounds
  rounds-IsWithin zero r out s le e = cc
  rounds-IsWithin (suc fuel) r out s le e = elim (Bool-cases (ltb r.result.matched (limit o))) [
    | inr full ↦ subst IsWithin (some-some (rw (full, rounds) at e)) (s, le)
    | inl room ↦
        elim (received sqs o r) as (λ answer. received sqs o r ≡ answer → IsWithin out) [
          | err x ↦ λ a.
              subst IsWithin (some-some (rw (a, rounds) at (rw (room, rounds) at e)))
                (received-IsSound r s, le)
          | ok [] ↦ λ a.
              subst IsWithin (some-some (rw (a, rounds) at (rw (room, rounds) at e)))
                (received-IsSound r s, le)
          | ok (m ∷ ms) ↦ λ a.
              let r1 = log_call (next_receive o r) r in
              let batch =
                take_messages-IsWithin (m ∷ ms) r1 (received-IsSound r s)
                  (all-IsReceived r [] (m ∷ ms) a) (ground arith) in
              elim (Result-cases (take_messages sqs o (m ∷ ms) r1).0) [
                | inl (_, d) ↦
                    rounds-IsWithin fuel (take_messages sqs o (m ∷ ms) r1).1 out batch.0 batch.1
                      (rw (d, rounds) at (rw (a, rounds) at (rw (room, rounds) at e)))
                | inr (x, d) ↦
                    subst IsWithin
                      (some-some (rw (d, rounds) at (rw (a, rounds) at (rw (room, rounds) at e))))
                      batch
              ]
        ]
          refl
  ]

  pub replay-IsSound :
      (fuel : ℕ) (out : Result (Unit {0}) × Run)
      → replay sqs o fuel ≡ some out
      → IsSound sqs o out.1 × (out.1.result.matched ≤ limit o)
  unfolding replay
  replay-IsSound fuel out e = rounds-IsWithin fuel (start o) out start-IsSound (omega arith) e
    where
      start-IsSound : IsSound sqs o (start o)
      start-IsSound = record {
        scans = refl;
        previews = omega arith;
        moves = omega arith;
        deletes = omega arith;
        sends = omega arith;
        order = tt;
      }
