-- ===== src/Replay/Passes.antt =====
-- `main` of scripts/dlq-replay.py after its queue URLs are known: the dry run, the questions, and
-- the run that moves messages. `answer` is what the operator types, stripped.
use lingo_async.Prelude.{
  ℕ, ◌≡◌, refl, subst, String, Bool, true, false, not, ◌&&◌, ◌||◌, Option, none, some, List, ◌==◌,
  eqb, arith, count, if◌then◌else◌,
}
use lingo_async.Prelude.Int.{ℤ}
use lingo_async.Python.Exn.{Result, ok, err}
use lingo_async.Replay.{Call, Sqs, Options, Run, rounds, replay, start}
use lingo_async.Replay.Counts.{is_send, is_delete}
use lingo_async.Replay.Rounds.{replay-IsSound}

pub record Args : Type 0 where
  pub max_messages : ℤ
  pub body_filter : Option String
  pub apply : Bool
  pub yes : Bool
  pub answer : String

-- The arguments of the two calls of `replay`, with its default preview_limit.
abbrev pub options_of : Args → Bool → Options
options_of a apply = record {
  max_messages = a.max_messages;
  body_filter = a.body_filter;
  apply = apply;
  preview_limit = 20;
}

abbrev pub exit : ℕ → Result (Unit {0}) × Run → Result ℕ × Run
exit code (ok _, r) = (ok code, r)
exit code (err e, r) = (err e, r)

-- The second call of `replay`, after the calls of the first.
unfoldable pub apply_pass : Sqs → Args → ℕ → List Call → Option (Result ℕ × Run)
apply_pass sqs a fuel calls =
    elim (rounds sqs (options_of a true) fuel
      (record (start (options_of a true)) { calls = calls })) [
        | none ↦ none
        | some out ↦ some (exit 0 out)
      ]

-- The exit code; none is a run that has not ended.
unfoldable pub passes : Sqs → Args → ℕ → Option (Result ℕ × Run)
passes sqs a fuel = elim (replay sqs (options_of a false) fuel) [
  | none ↦ none
  | some (err e, preview) ↦ some (err e, preview)
  | some (ok _, preview) ↦
      let applied = apply_pass sqs a fuel preview.calls in
      if not a.apply
      then some (ok 0, preview)
      else if eqb preview.result.matched 0
      then some (ok 0, preview)
      else if not a.yes && not (a.answer == "yes")
      then some (ok 1, preview)
      else applied
]

-- The operator has asked for the messages to be moved, and has confirmed it.
abbrev pub confirmed : Args → Bool
confirmed a = a.apply && (a.yes || (a.answer == "yes"))

module _ (sqs : Sqs) (a : Args) (fuel : ℕ) where
  dry_run-quiet :
      (out : Result (Unit {0}) × Run)
      → replay sqs (options_of a false) fuel ≡ some out
      → (count is_send out.1.calls ≡ 0) × (count is_delete out.1.calls ≡ 0)
  dry_run-quiet out e =
      let s = (replay-IsSound sqs (options_of a false) fuel out e).0 in
      (omega (arith, s.sends), omega (arith, s.sends, s.deletes))

  abbrev Quiet : Result ℕ × Run → Type 0
  Quiet out = (count is_send out.1.calls ≡ 0) × (count is_delete out.1.calls ≡ 0)

  none-some : {out : Result ℕ × Run} → none ≡ some out → ⊥
  none-some e = cc

  some-some : {x y : Result ℕ × Run} → some x ≡ some y → x ≡ y
  some-some e = cc

  -- Without --apply, or without a confirmation by --yes or by the answer yes, a run of the DLQ
  -- replay that ends has sent nothing and deleted nothing.
  nothing_moves_unasked :
      (out : Result ℕ × Run)
      → confirmed a ≡ false
      → passes sqs a fuel ≡ some out
      → (count is_send out.1.calls ≡ 0) × (count is_delete out.1.calls ≡ 0)
  unfolding passes
  nothing_moves_unasked out c e =
      elim (replay sqs (options_of a false) fuel)
          as (λ first.
            replay sqs (options_of a false) fuel ≡ first
            → (count is_send out.1.calls ≡ 0) × (count is_delete out.1.calls ≡ 0)) [
              | none ↦ λ known. absurd (none-some (rw (known, passes) at e))
              | some (err x, preview) ↦ λ known.
                  subst Quiet (some-some (rw (known, passes) at e))
                    (dry_run-quiet (err x, preview) known)
              | some (ok _, preview) ↦ λ known.
                  ground (arith, dry_run-quiet (ok tt, preview) known, (rw (known, passes) at e))
            ]
        refl
