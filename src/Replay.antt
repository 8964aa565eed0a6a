-- ===== src/Replay.antt =====
-- `replay` of scripts/dlq-replay.py. The SQS client is a parameter whose answers depend on the
-- calls made so far, newest first.
pub mod Counts
pub mod Rounds
pub mod DryRun
pub mod Passes
pub mod Moves
pub mod Termination
pub mod Print
pub mod Main
use lingo_async.Prelude.{
  ℕ, zero, suc, ◌-◌, min, String, Bool, true, false, Option, none, some, List, [], ◌∷◌, ◌++◌,
  length, ltb, leb, if◌then◌else◌, or_default,
}
use lingo_async.Prelude.Int.{ℤ, pos, negsuc}
use lingo_async.Python.Exn.{Exn, Result, ok, err, key_error}
use lingo_async.Python.Text.{contains}

-- One entry of `resp["Messages"]`, with the keys that are read.
pub record Message : Type 0 where
  pub message_id : Option String
  pub body : Option String
  pub receipt_handle : Option String

-- `receive` has MaxNumberOfMessages and VisibilityTimeout.
pub data Call : Type 0 where
  receive : ℕ → ℕ → Call
  send delete : String → Call

-- `resp.get("Messages") or []` of a receive, and whether the other two calls raise.
pub record Sqs : Type 0 where
  pub receive_message : List Call → ℕ → ℕ → Result (List Message)
  pub send_message : List Call → String → Result (Unit {0})
  pub delete_message : List Call → String → Result (Unit {0})

pub record Preview : Type 0 where
  pub message_id : Option String
  pub body : String

pub record ReplayResult : Type 0 where
  pub scanned : ℕ
  pub matched : ℕ
  pub moved : ℕ
  pub skipped_filter : ℕ
  pub previews : List Preview
  pub dry_run : Bool

-- The keyword arguments of `replay`.
pub record Options : Type 0 where
  pub max_messages : ℤ
  pub body_filter : Option String
  pub apply : Bool
  pub preview_limit : ℕ

pub record Run : Type 0 where
  pub result : ReplayResult
  pub calls : List Call

-- `matched < max_messages` for an `int` is `matched < limit`.
abbrev pub limit : Options → ℕ
limit o = elim o.max_messages [ pos n ↦ n | negsuc _ ↦ 0 ]

abbrev pub receive_batch : ℕ
receive_batch = 10

-- `_matches`
abbrev pub matches : Option String → String → Bool
matches none body = true
matches (some needle) body = contains needle body

-- msg.get("Body", "")
abbrev pub message_body : Message → String
message_body m = or_default m.body ""

abbrev pub log_call : Call → Run → Run
log_call c r = record r { calls = c ∷ r.calls }

abbrev pub skip_one : Run → Run
skip_one r = record r {
  result = record r.result {
    scanned = suc r.result.scanned;
    skipped_filter = suc r.result.skipped_filter;
  };
}

abbrev add_preview : ℕ → Message → List Preview → List Preview
add_preview limit m ps =
    if ltb (length ps) limit
    then ps ++ record { message_id = m.message_id; body = message_body m } ∷ []
    else ps

abbrev pub matched_one : Options → Message → Run → Run
matched_one o m r = record r {
  result = record r.result {
    scanned = suc r.result.scanned;
    matched = suc r.result.matched;
    previews = add_preview o.preview_limit m r.result.previews;
  };
}

abbrev pub moved_one : Run → Run
moved_one r = record r { result = record r.result { moved = suc r.result.moved } }

abbrev pub delete_of : Sqs → Option String → Run → Result (Unit {0}) × Run
delete_of sqs none r = (err (key_error "ReceiptHandle"), r)
delete_of sqs (some handle) r = elim (sqs.delete_message r.calls handle) [
  | ok _ ↦ (ok tt, moved_one (log_call (delete handle) r))
  | err e ↦ (err e, log_call (delete handle) r)
]

-- The part under `if apply:`.
unfoldable pub move : Sqs → Message → Run → Result (Unit {0}) × Run
move sqs m r = elim (sqs.send_message r.calls (message_body m)) [
  | ok _ ↦ delete_of sqs m.receipt_handle (log_call (send (message_body m)) r)
  | err e ↦ (err e, log_call (send (message_body m)) r)
]

-- The body of the inner loop, without its last test.
unfoldable pub take_message : Sqs → Options → Message → Run → Result (Unit {0}) × Run
take_message sqs o m r =
    if matches o.body_filter (message_body m)
    then if o.apply then move sqs m (matched_one o m r) else (ok tt, matched_one o m r)
    else (ok tt, skip_one r)

-- The inner loop. The `continue` of a message that does not match skips the last test too.
unfoldable pub take_messages : Sqs → Options → List Message → Run → Result (Unit {0}) × Run
take_messages sqs o [] r = (ok tt, r)
take_messages sqs o (m ∷ ms) r =
    let (done, r') = take_message sqs o m r in
    elim done [
      | err e ↦ (err e, r')
      | ok _ ↦ elim (matches o.body_filter (message_body m)) [
        | false ↦ take_messages sqs o ms r'
        | true ↦ elim (leb (limit o) r'.result.matched) [
          | true ↦ (ok tt, r')
          | false ↦ take_messages sqs o ms r'
        ]
      ]
    ]

abbrev pub next_receive : Options → Run → Call
next_receive o r =
    receive (min receive_batch (limit o - r.result.matched)) (if o.apply then 30 else 0)

abbrev pub received : Sqs → Options → Run → Result (List Message)
received sqs o r =
    sqs.receive_message r.calls (min receive_batch (limit o - r.result.matched))
      (if o.apply then 30 else 0)

-- The outer loop on fuel; none is a run that has not ended.
unfoldable pub rounds : Sqs → Options → ℕ → Run → Option (Result (Unit {0}) × Run)
rounds sqs o zero r = none
rounds sqs o (suc fuel) r = elim (ltb r.result.matched (limit o)) [
  | false ↦ some (ok tt, r)
  | true ↦ elim (received sqs o r) [
    | err e ↦ some (err e, log_call (next_receive o r) r)
    | ok [] ↦ some (ok tt, log_call (next_receive o r) r)
    | ok (m ∷ ms) ↦
        let (done, r') = take_messages sqs o (m ∷ ms) (log_call (next_receive o r) r) in
        elim done [ err e ↦ some (err e, r') | ok _ ↦ rounds sqs o fuel r' ]
  ]
]

abbrev pub start : Options → Run
start o = record {
  result = record {
    scanned = 0;
    matched = 0;
    moved = 0;
    skipped_filter = 0;
    previews = [];
    dry_run = if o.apply then false else true;
  };
  calls = [];
}

unfoldable pub replay : Sqs → Options → ℕ → Option (Result (Unit {0}) × Run)
replay sqs o fuel = rounds sqs o fuel (start o)
