-- ===== src/Tests/Replaying.antt =====
-- The theorems on scripts/dlq-replay.py at concrete inputs.
use lingo_async.Prelude.{
  ◌||◌, ◌++◌, ℕ, String, eqb, ◌≡◌, refl, true, false, none, some, [], ◌∷◌, arith, length,
  if◌then◌else◌, leb,
}
use lingo_async.Prelude.Int.{pos}
use lingo_async.Python.Exn.{Result, ok}
use lingo_async.Python.Text.{contains}
use lingo_async.Replay.{
  Message, receive, send, delete, Sqs, Options, Run, move, take_message, take_messages, rounds,
  replay,
}
use lingo_async.Replay.Passes.{Args, apply_pass, passes}
use lingo_async.Replay.Print.{preview_texts, print_preview}
use lingo_async.Replay.Moves.{Moves}
use lingo_async.Replay.Main.{
  CommandLine, no_arguments, Boto, Finished, after_preview, main_with, main,
}
use lingo_async.Replay.Termination.{NoneMatch, replay_ends, dry_run_runs_on}
use lingo_async.Replay.DryRun.{dry_run_recounts}

abbrev friend : Message
friend = record { message_id = some "m1"; body = some "friend_added"; receipt_handle = some "h1" }

-- A queue that shows the same message to every receive.
abbrev showing : Sqs
showing = record {
  receive_message = λ _ _ _. ok (friend ∷ []);
  send_message = λ _ _. ok tt;
  delete_message = λ _ _. ok tt;
}

-- A queue that holds the message until the first log_call.
abbrev holding : Sqs
holding = record showing {
  receive_message = λ calls _ _. ok (if leb (length calls) 0 then friend ∷ [] else []);
}

abbrev options : Options
options = record { max_messages = pos 3; body_filter = none; apply = false; preview_limit = 20 }

abbrev applying : Options
applying = record options { apply = true }

abbrev filtering : Options
filtering = record options { body_filter = some "xp_awarded" }

abbrev moved : Run
moved = record {
  result = record {
    scanned = 1;
    matched = 1;
    moved = 1;
    skipped_filter = 0;
    previews = record { message_id = some "m1"; body = "friend_added" } ∷ [];
    dry_run = false;
  };
  calls = receive 2 30 ∷ delete "h1" ∷ send "friend_added" ∷ receive 3 30 ∷ [];
}

replay_ends_example : (out : Result (Unit {0}) × Run) × (replay showing applying 4 ≡ some out)
replay_ends_example = replay_ends showing applying 4 refl (omega arith)

none_match : NoneMatch showing filtering
unfolding contains
none_match calls n = (friend, [], refl, (refl, tt))

dry_run_runs_on_example : replay showing filtering 1000 ≡ none
dry_run_runs_on_example = dry_run_runs_on showing filtering 1000 refl (omega arith) none_match

dry_run_recounts_example :
    (r : Run) × (replay showing options 4 ≡ some (ok tt, r)) × (r.result.matched ≡ 3)
dry_run_recounts_example =
    dry_run_recounts showing options friend refl refl (λ _ _. refl) 4 (omega arith)

-- The operator answers "no" to a run that would move messages.
abbrev unsure : Args
unsure = record {
  max_messages = pos 3;
  body_filter = none;
  apply = true;
  yes = false;
  answer = "no";
}

abbrev previewed : Run
previewed = record {
  result = record {
    scanned = 1;
    matched = 1;
    moved = 0;
    skipped_filter = 0;
    previews = record { message_id = some "m1"; body = "friend_added" } ∷ [];
    dry_run = true;
  };
  calls = receive 2 0 ∷ receive 3 0 ∷ [];
}

passes_abort : passes holding unsure 4 ≡ some (ok 1, previewed)
unfolding passes apply_pass replay rounds take_messages take_message move
passes_abort = refl

-- Two queues that exist, and the client above.
abbrev boto : Boto
boto = record { get_queue_url = λ region name. ok name; client = λ region dlq dest. holding }

abbrev ask_nothing : CommandLine
ask_nothing = record no_arguments { args = unsure }

abbrev decimal : ℕ → String
decimal n = if eqb n 0 then "0" else "1"

abbrev aborted : Finished
aborted = record {
  exit_code = ok 1;
  run = previewed;
  printed =
      "\n=== DLQ replay preview [DRY-RUN (no messages moved)] ==="
      ∷ "scanned=1 matched=1 skipped_by_filter=0"
      ∷ "\nWould move 1 message(s) → lingo-events. Showing first 1:"
      ∷ "  1. id=m1\n     friend_added"
      ∷ "\nMove 1 message(s) from lingo-events-dlq → lingo-events? Type 'yes' to proceed: "
      ∷ "Aborted." ∷ [];
}

main_aborts : main decimal boto ask_nothing 4 ≡ ok (some aborted)
unfolding main main_with after_preview print_preview preview_texts apply_pass replay rounds
    take_messages take_message move
main_aborts = refl

-- A client that shows the message to the first receive of each pass, and a run that may move it.
abbrev refilled : Boto
refilled = record boto {
  client = λ region dlq dest. record showing {
    receive_message =
        λ calls _ _. ok (if eqb (length calls) 0 || eqb (length calls) 2 then friend ∷ [] else []);
  };
}

abbrev ask_all : CommandLine
ask_all = record no_arguments { args = record unsure { yes = true } }

abbrev finished : Finished
finished = record {
  exit_code = ok 0;
  run = record moved { calls = moved.calls ++ receive 2 0 ∷ receive 3 0 ∷ [] };
  printed =
      "\n=== DLQ replay preview [DRY-RUN (no messages moved)] ==="
      ∷ "scanned=1 matched=1 skipped_by_filter=0"
      ∷ "\nWould move 1 message(s) → lingo-events. Showing first 1:"
      ∷ "  1. id=m1\n     friend_added" ∷ "\nMoved 1 message(s) → lingo-events." ∷ [];
}
