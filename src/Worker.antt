-- ===== src/Worker.antt =====
-- `lambda_handler` and its helpers in app/handler.py: one batch of SQS records over the world and
-- the state `R` of the event log.
pub mod Batch
pub mod Isolation
pub mod Frame
pub mod Health
pub mod Outage
pub mod Published
pub mod Entry
pub mod Writes
pub mod Backends
pub mod Agreement
pub mod Journal
use lingo_async.Prelude.{
  ℕ, ◌+◌, ◌*◌, String, Option, none, some, List, [], ◌∷◌, ◌++◌, or_default, if◌then◌else◌,
}
use lingo_async.Prelude.Int.{ℤ}
use lingo_async.Python.Exn.{Exn, Result, ok, err}
use lingo_async.Python.Text.{is_empty}
use lingo_async.Python.Calendar.{isoformat, seconds_of, timestamp}
use lingo_async.World.{Env, World, DateTime, read_clock, emit}
use lingo_async.Contracts.Messages.{EventMessage, type_of, user_of}
use lingo_async.Contracts.Envelope.{Codec, text}
use lingo_async.Contracts.Parse.{Pydantic, Parsed, parsed, invalid, raised, body, parse_event}
use lingo_async.Handlers.{Outcome, dispatch}
use lingo_async.EventLog.{SaveArgs, StatusArgs, Repo}

-- One entry of `event["Records"]`, with the two keys that are read.
pub record SqsRecord : Type 0 where
  pub message_id : Option String
  pub body : Option String

-- Decoding and the texts of errors and outcomes: `repr(exc)`, `str(exc.errors())` of the
-- ValidationError for a body, and `json.dumps(outcomes)`.
pub record Host : Type 0 where
  pub codec : Codec
  pub pydantic : Pydantic
  pub repr : Exn → String
  pub errors_of : String → String
  pub dumps : List Outcome → Result String

-- _TTL_SECONDS
abbrev pub ttl_seconds : ℕ
ttl_seconds = 30 * 24 * 3600

-- record.get("messageId", "<unknown>")
abbrev pub id_of : SqsRecord → String
id_of r = or_default r.message_id "<unknown>"

-- record.get("body") or "{}"
abbrev pub body_of : SqsRecord → String
body_of r = elim r.body [ none ↦ "{}" | some s ↦ if is_empty s then "{}" else s ]

abbrev pub read_time : Env → World → DateTime × World
read_time env w = (env.utc_now w.trace, emit read_clock w)

module _ {R : Type 0} where
  -- `_safe_save`: whatever the store raises is dropped.
  unfoldable pub safe_save : Option (Repo R) → SaveArgs → R → R
  safe_save none a r = r
  safe_save (some repo) a r = (repo.save a r).1

  abbrev pub update_with : Repo R → String → String → Option String → Result String → R → R
  update_with repo id status error_msg (ok json) r =
      (repo.update_status
        (record { id = id; status = status; error_msg = error_msg; outcomes_json = json }) r).1
  update_with repo id status error_msg (err _) r = r

  -- `_safe_update_status`: the encoding of the outcomes stands inside the guard too.
  unfoldable pub safe_update_status :
      Host → Option (Repo R) → String → String → Option String → List Outcome → R → R
  safe_update_status h none id status error_msg outcomes r = r
  safe_update_status h (some repo) id status error_msg outcomes r =
      update_with repo id status error_msg (h.dumps outcomes) r

pub record State (R : Type 0) : Type 0 where
  pub world : World
  pub log : R

-- What a record adds to `failures`.
abbrev pub Failures : Type 0
Failures = List String

abbrev pub save_args : String → String → String → String → DateTime → DateTime → SaveArgs
save_args id user_id event_type payload t1 t2 = record {
  id = id;
  user_id = user_id;
  event_type = event_type;
  payload_json = payload;
  received_at = isoformat t1;
  ttl_epoch = timestamp (seconds_of t2 + ttl_seconds);
}

abbrev failure_of : String → Result (List Outcome) → Failures
failure_of id (ok _) = []
failure_of id (err _) = id ∷ []

module _ {R : Type 0} where
  abbrev prepend : Failures → Result Failures × State R → Result Failures × State R
  prepend fs (ok gs, s) = (ok (fs ++ gs), s)
  prepend fs (err e, s) = (err e, s)

module _ {R : Type 0} (env : Env) (h : Host) (repo : Option (Repo R)) where
  -- The loop's body after a ValidationError.
  unfoldable pub reject : String → String → DateTime → DateTime → R → R
  reject id payload t1 t2 log =
      let saved = safe_save repo (save_args id "<unparsed>" "<unparsed>" payload t1 t2) log in
      safe_update_status h repo id "failed" (some (h.errors_of payload)) [] saved

  -- The status update after a dispatch.
  unfoldable pub settle : String → Result (List Outcome) → R → R
  settle id (ok outcomes) log = safe_update_status h repo id "ok" none outcomes log
  settle id (err e) log = safe_update_status h repo id "failed" (some (h.repr e)) [] log

  -- The loop's body for a message that parsed.
  unfoldable pub process_event :
      String → String → DateTime → DateTime → EventMessage → State R → Failures × State R
  process_event id payload t1 t2 m s =
      let saved = safe_save repo (save_args id (user_of m) (type_of m) payload t1 t2) s.log in
      let (r, w) = dispatch env m s.world in
      (failure_of id r, record { world = w; log = settle id r saved })

  abbrev pub process_parsed :
      String → String → DateTime → DateTime → Parsed → State R → Result Failures × State R
  process_parsed id payload t1 t2 (parsed m) s =
      let (failures, s') = process_event id payload t1 t2 m s in (ok failures, s')
  process_parsed id payload t1 t2 invalid s =
      (ok (id ∷ []), record s { log = reject id payload t1 t2 s.log })
  process_parsed id payload t1 t2 (raised e) s = (err e, s)

  -- The loop's body. Only ValidationError is caught round `parse_event`.
  unfoldable pub process_record : SqsRecord → State R → Result Failures × State R
  process_record r s =
      let (t1, w1) = read_time env s.world in
      let (t2, w2) = read_time env w1 in
      process_parsed (id_of r) (body_of r) t1 t2
        (parse_event h.codec h.pydantic (body (text (body_of r)))) (record s { world = w2 })

  -- `lambda_handler`: the identifiers in `batchItemFailures`.
  unfoldable pub lambda_handler : List SqsRecord → State R → Result Failures × State R
  lambda_handler [] s = (ok [], s)
  lambda_handler (r ∷ rs) s =
      let (result, s') = process_record r s in
      elim result [ ok fs ↦ prepend fs (lambda_handler rs s') | err e ↦ (err e, s') ]
