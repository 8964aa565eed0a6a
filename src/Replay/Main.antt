-- ===== src/Replay/Main.antt =====
-- `main` of scripts/dlq-replay.py on a parsed command line, with the lines that it prints.
use lingo_async.Prelude.{
  arith, ℕ, ◌≡◌, ◌≤◌, ◌∙◌, refl, sym, ap, String, ◌<>◌, Bool, true, false, not, ◌&&◌, Option, none,
  some, List, [], ◌∷◌, ◌++◌, ◌==◌, eqb, count, if◌then◌else◌,
}
use lingo_async.Prelude.Int.{pos}
use lingo_async.Python.Exn.{Result, ok, err, ◌>>=◌, bind-ok, ok-injective}
use lingo_async.Replay.{Sqs, Run, replay}
use lingo_async.Replay.Counts.{is_send, is_delete}
use lingo_async.Replay.Print.{print_preview}
use lingo_async.Replay.Moves.{Moves, passes-Moves}
use lingo_async.Replay.Passes.{Args, options_of, apply_pass, passes, confirmed}

-- What argparse makes of `argv`; `Args` holds the other options.
pub record CommandLine : Type 0 where
  pub dlq : String
  pub dest : String
  pub region : String
  pub args : Args

abbrev default_dlq : String
default_dlq = "lingo-events-dlq"

abbrev default_dest : String
default_dest = "lingo-events"

abbrev default_region : String
default_region = "us-west-1"

-- The command line without arguments; the answer is not read then.
abbrev pub no_arguments : CommandLine
no_arguments = record {
  dlq = default_dlq;
  dest = default_dest;
  region = default_region;
  args = record {
    max_messages = pos 100;
    body_filter = none;
    apply = false;
    yes = false;
    answer = "";
  };
}

-- boto3's client in a region: the URL of a queue, and the client's calls with the two URLs.
pub record Boto : Type 0 where
  pub get_queue_url : String → String → Result String
  pub client : String → String → String → Sqs

-- Both queues have a URL, and this holds of the client for them.
abbrev pub Reaches : Boto → CommandLine → (Sqs → Type 0) → Type 0
Reaches boto cl P =
    (dlq_url : String) × (dest_url : String) × (boto.get_queue_url cl.region cl.dlq ≡ ok dlq_url)
    × (boto.get_queue_url cl.region cl.dest ≡ ok dest_url)
    × P (boto.client cl.region dlq_url dest_url)

-- The exit code, the calls, and what was printed.
pub record Finished : Type 0 where
  pub exit_code : Result ℕ
  pub run : Run
  pub printed : List String

abbrev finish : List String → Result ℕ × Run → Finished
finish lines (exit, run) = record { exit_code = exit; run = run; printed = lines }

abbrev ended : Option Finished → Option (Result ℕ × Run)
ended none = none
ended (some f) = some (f.exit_code, f.run)

-- `decimal` is `str` of a number.
module _ (decimal : ℕ → String) where
  abbrev finish_apply : String → List String → Option (Result ℕ × Run) → Option Finished
  finish_apply dest lines none = none
  finish_apply dest lines (some (err e, run)) = some (finish lines (err e, run))
  finish_apply dest lines (some (ok code, run)) = some (
      finish
        (lines
          ++ ("\nMoved " <> (decimal run.result.moved <> (" message(s) → " <> (dest <> ".")))) ∷ [])
        (ok code, run))

  -- What `input` shows.
  abbrev prompt : CommandLine → ℕ → String
  prompt cl matched =
      "\nMove "
      <> (decimal matched
          <> (" message(s) from "
              <> (cl.dlq <> (" → " <> (cl.dest <> "? Type 'yes' to proceed: ")))))

  abbrev question : CommandLine → ℕ → List String
  question cl matched = if cl.args.yes then [] else prompt cl matched ∷ []

  -- `main` from the end of the dry run.
  unfoldable pub after_preview : Sqs → CommandLine → ℕ → Run → Option Finished
  after_preview sqs cl fuel preview =
      let lines = print_preview decimal preview.result cl.dest in
      let answered = lines ++ question cl preview.result.matched in
      let applied = finish_apply cl.dest answered (apply_pass sqs cl.args fuel preview.calls) in
      if not cl.args.apply
      then some (
          finish (lines ++ "\nDry-run only. Re-run with --apply to move these messages." ∷ [])
            (ok 0, preview))
      else if eqb preview.result.matched 0
      then some (finish (lines ++ "\nNothing to move." ∷ []) (ok 0, preview))
      else if not cl.args.yes && not (cl.args.answer == "yes")
      then some (finish (answered ++ "Aborted." ∷ []) (ok 1, preview))
      else applied

  -- `main` after the two URLs; none is a run that has not ended.
  unfoldable pub main_with : Sqs → CommandLine → ℕ → Option Finished
  main_with sqs cl fuel = elim (replay sqs (options_of cl.args false) fuel) [
    | none ↦ none
    | some (err e, preview) ↦ some (finish [] (err e, preview))
    | some (ok _, preview) ↦ after_preview sqs cl fuel preview
  ]

  -- `main`; the left side is an exception of a lookup of a queue's URL, before any other call.
  unfoldable pub main : Boto → CommandLine → ℕ → Result (Option Finished)
  unfolding main_with
  main boto cl fuel = do
    dlq_url ← boto.get_queue_url cl.region cl.dlq
    dest_url ← boto.get_queue_url cl.region cl.dest
    ok (main_with (boto.client cl.region dlq_url dest_url) cl fuel)

  ended-apply :
      (dest : String) (lines : List String) (o : Option (Result ℕ × Run))
      → ended (finish_apply dest lines o) ≡ o
  ended-apply dest lines none = refl
  ended-apply dest lines (some (err e, run)) = refl
  ended-apply dest lines (some (ok code, run)) = refl

  pass_choice :
      (stays none_matched aborted : Bool) (previewed empty declined : Finished)
      (o : Option Finished)
      → ended (
          if stays
          then some previewed
          else if none_matched
          then some empty
          else if aborted
          then some declined
          else o)
        ≡ (if stays
            then some (previewed.exit_code, previewed.run)
            else if none_matched
            then some (empty.exit_code, empty.run)
            else if aborted
            then some (declined.exit_code, declined.run)
            else ended o)
  pass_choice true z a f g h o = refl
  pass_choice false true a f g h o = refl
  pass_choice false false true f g h o = refl
  pass_choice false false false f g h o = refl

  -- The printing aside, `main` is its two passes.
  main_with-passes :
      (sqs : Sqs) (cl : CommandLine) (fuel : ℕ)
      → ended (main_with sqs cl fuel) ≡ passes sqs cl.args fuel
  unfolding main_with passes after_preview
  main_with-passes sqs cl fuel =
      elim (replay sqs (options_of cl.args false) fuel)
          as (λ first.
            replay sqs (options_of cl.args false) fuel ≡ first
            → ended (main_with sqs cl fuel) ≡ passes sqs cl.args fuel) [
              | none ↦ λ known. rw (known, main_with, passes, ended)
              | some (err e, preview) ↦ λ known. rw (known, main_with, passes, ended)
              | some (ok _, preview) ↦ λ known.
                  rw (known, main_with, passes, after_preview, ended, pass_choice, ended-apply)
            ]
        refl

  main-last :
      (boto : Boto) (cl : CommandLine) (fuel : ℕ) (f : Finished)
      → main boto cl fuel ≡ ok (some f)
      → Reaches boto cl (λ sqs. main_with sqs cl fuel ≡ some f)
  unfolding main
  main-last boto cl fuel f e =
      let (dlq_url, dlq_is, after_dlq) = bind-ok (boto.get_queue_url cl.region cl.dlq) e in
      let (dest_url, dest_is, after_dest) =
        bind-ok (boto.get_queue_url cl.region cl.dest) after_dlq in
      (dlq_url, dest_url, dlq_is, dest_is, ok-injective after_dest)

  pub main-Moves :
      (boto : Boto) (cl : CommandLine) (fuel : ℕ) (f : Finished)
      → main boto cl fuel ≡ ok (some f)
      → Reaches boto cl (λ sqs. Moves sqs cl.args f.run.calls)
  main-Moves boto cl fuel f e =
      let (dlq_url, dest_url, dlq_is, dest_is, ends) = main-last boto cl fuel f e in
      let sqs = boto.client cl.region dlq_url dest_url in
      (
        dlq_url,
        dest_url,
        dlq_is,
        dest_is,
        passes-Moves sqs cl.args fuel (f.exit_code, f.run)
            (sym (main_with-passes sqs cl fuel) ∙ ap ended ends),
      )

  -- Without --apply, or without a confirmation by --yes or by the answer yes, such a run has sent
  -- nothing and deleted nothing.
  main_unasked :
      (boto : Boto) (cl : CommandLine) (fuel : ℕ) (f : Finished)
      → confirmed cl.args ≡ false
      → main boto cl fuel ≡ ok (some f)
      → (count is_send f.run.calls ≡ 0) × (count is_delete f.run.calls ≡ 0)
  main_unasked boto cl fuel f c e =
      let (_, _, _, _, moves) = main-Moves boto cl fuel f e in
      let sends : count is_send f.run.calls ≤ 0 = rw (c) at moves.asked in
      (omega (arith, sends), omega (arith, sends, moves.deletes))
