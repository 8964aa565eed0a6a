-- ===== src/Replay/Moves.antt =====
-- What both passes of scripts/dlq-replay.py together send and delete.
use lingo_async.Prelude.{
  ℕ, ◌≤◌, ◌≡◌, refl, subst, true, false, not, ◌&&◌, Option, none, some, List, arith, count,
  if_either, if◌then◌else◌, ◌==◌, eqb,
}
use lingo_async.Python.Exn.{Result, ok, err}
use lingo_async.Replay.{Call, Sqs, Run, limit, rounds, replay, start}
use lingo_async.Replay.Counts.{is_send, is_delete, IsSound, SentBeforeDeleted}
use lingo_async.Replay.Rounds.{replay-IsSound, rounds-IsWithin}
use lingo_async.Replay.Passes.{Args, options_of, exit, apply_pass, passes, confirmed}

-- Nothing moves without a confirmation, no more than max_messages are sent with one, and what is
-- deleted has been sent right before.
pub record Moves (sqs : Sqs) (a : Args) (calls : List Call) : Type 0 where
  pub asked : count is_send calls ≤ (if confirmed a then limit (options_of a true) else 0)
  pub deletes : count is_delete calls ≤ count is_send calls
  pub order : SentBeforeDeleted sqs calls

exit-run : (code : ℕ) (out : Result (Unit {0}) × Run) → (exit code out).1 ≡ out.1
exit-run code (ok _, r) = refl
exit-run code (err e, r) = refl

none-some {ℓ} : {A : Type ℓ} {a : A} → none ≡ some a → ⊥
none-some e = cc

some-some {ℓ} : {A : Type ℓ} {x y : A} → some x ≡ some y → x ≡ y
some-some e = cc

module _ (sqs : Sqs) (a : Args) (fuel : ℕ) where
  -- The dry run sends nothing.
  record IsQuiet (calls : List Call) : Type 0 where
    sends : count is_send calls ≡ 0
    deletes : count is_delete calls ≡ 0
    order : SentBeforeDeleted sqs calls

  preview-IsQuiet :
      (out : Result (Unit {0}) × Run)
      → replay sqs (options_of a false) fuel ≡ some out
      → IsQuiet out.1.calls
  preview-IsQuiet out e =
      let s = (replay-IsSound sqs (options_of a false) fuel out e).0 in
      record {
        sends = omega (arith, s.sends);
        deletes = omega (arith, s.sends, s.deletes);
        order = s.order;
      }

  quiet-Moves : (calls : List Call) → IsQuiet calls → Moves sqs a calls
  quiet-Moves calls q = record {
    asked = omega (arith, q.sends);
    deletes = omega (arith, q.sends, q.deletes);
    order = q.order;
  }

  resumed-IsSound :
      (calls : List Call)
      → IsQuiet calls
      → IsSound sqs (options_of a true) (record (start (options_of a true)) { calls = calls })
  resumed-IsSound calls q = record {
    scans = refl;
    previews = omega arith;
    moves = omega arith;
    deletes = omega (arith, q.sends, q.deletes);
    sends = omega (arith, q.sends);
    order = q.order;
  }

  apply-Moves :
      (calls : List Call) (out : Result ℕ × Run)
      → confirmed a ≡ true
      → IsQuiet calls
      → apply_pass sqs a fuel calls ≡ some out
      → Moves sqs a out.1.calls
  unfolding apply_pass
  apply-Moves calls out c q e =
      let o = options_of a true in
      let r = record (start o) { calls = calls } in
      elim (rounds sqs o fuel r) as (λ x. rounds sqs o fuel r ≡ x → Moves sqs a out.1.calls) [
        | none ↦ λ known. absurd (none-some (rw (known, apply_pass) at e))
        | some z ↦ λ known.
            let within =
              rounds-IsWithin sqs o fuel r z (resumed-IsSound calls q) (omega arith) known in
            subst (λ (y : Result ℕ × Run). Moves sqs a y.1.calls)
              (some-some (rw (known, apply_pass) at e))
              (rw (exit-run 0 z) (record {
                asked = rw (c) (omega (arith, within.0.sends, within.1));
                deletes = within.0.deletes;
                order = within.0.order;
              }))
      ]
        refl

  -- The run that moves is reached only with a confirmation.
  chosen-Moves :
      (preview : Run) (out : Result ℕ × Run)
      → IsQuiet preview.calls
      → (if not a.apply
          then some (ok 0, preview)
          else if eqb preview.result.matched 0
          then some (ok 0, preview)
          else if not a.yes && not (a.answer == "yes")
          then some (ok 1, preview)
          else apply_pass sqs a fuel preview.calls)
        ≡ some out
      → Moves sqs a out.1.calls
  chosen-Moves preview out q =
      let stays : (code : ℕ) → some (ok code, preview) ≡ some out → Moves sqs a out.1.calls =
        λ code e.
          subst (λ (y : Result ℕ × Run). Moves sqs a y.1.calls) (some-some e)
            (quiet-Moves preview.calls q) in
      let P : Option (Result ℕ × Run) → Type 0 = λ x. x ≡ some out → Moves sqs a out.1.calls in
      if_either P (not a.apply) _ _ (λ _. stays 0)
        (λ applies.
          if_either P (eqb preview.result.matched 0) _ _ (λ _. stays 0)
            (λ _.
              if_either P (not a.yes && not (a.answer == "yes")) _ _ (λ _. stays 1)
                (λ agreed e. apply-Moves preview.calls out (ground (arith, applies, agreed)) q e)))

  pub passes-Moves : (out : Result ℕ × Run) → passes sqs a fuel ≡ some out → Moves sqs a out.1.calls
  unfolding passes
  passes-Moves out e =
      let first = replay sqs (options_of a false) fuel in
      elim first as (λ x. first ≡ x → Moves sqs a out.1.calls) [
        | none ↦ λ known. absurd (none-some (rw (known, passes) at e))
        | some (err x, preview) ↦ λ known.
            subst (λ (y : Result ℕ × Run). Moves sqs a y.1.calls)
              (some-some (rw (known, passes) at e))
              (quiet-Moves preview.calls (preview-IsQuiet (err x, preview) known))
        | some (ok t, preview) ↦ λ known.
            chosen-Moves preview out (preview-IsQuiet (ok t, preview) known)
              (rw (known, passes) at e)
      ]
        refl
