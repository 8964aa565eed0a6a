-- ===== src/Worker/Batch.antt =====
-- `lambda_handler` of app/handler.py against a reference that knows nothing of the event log.
use lingo_async.Prelude.{String, ◌≡◌, refl, Option, List, [], ◌∷◌, arith}
use lingo_async.Python.Exn.{Exn, Result, ok, err}
use lingo_async.World.{Env, World, read_clock, emit}
use lingo_async.Contracts.Envelope.{text}
use lingo_async.Contracts.Parse.{Parsed, parsed, invalid, raised, body, parse_event}
use lingo_async.Handlers.{Outcome, dispatch}
use lingo_async.EventLog.{Repo}
use lingo_async.Worker.{
  SqsRecord, Host, id_of, body_of, State, process_event, process_record, lambda_handler,
}

-- What becomes of one message: SQS deletes it, SQS delivers it again, or the whole batch crashes.
pub data Verdict : Type 0 where
  done failed : Verdict
  crashed : Exn → Verdict

abbrev pub clocked : World → World
clocked w = emit read_clock (emit read_clock w)

abbrev pub parse_record : Host → SqsRecord → Parsed
parse_record h r = parse_event h.codec h.pydantic (body (text (body_of r)))

abbrev pub verdict_of : Result (List Outcome) → Verdict
verdict_of (ok _) = done
verdict_of (err _) = failed

abbrev pub deliver_parsed : Env → Parsed → World → Verdict × World
deliver_parsed env (parsed m) w = let (r, w') = dispatch env m w in (verdict_of r, w')
deliver_parsed env invalid w = (failed, w)
deliver_parsed env (raised e) w = (crashed e, w)

-- One message, without the event log: it fails exactly if it does not validate or its handler
-- raises.
unfoldable pub deliver : Env → Host → SqsRecord → World → Verdict × World
deliver env h r w = deliver_parsed env (parse_record h r) (clocked w)

abbrev pub add_failure : String → Result (List String) × World → Result (List String) × World
add_failure id (ok ids, w) = (ok (id ∷ ids), w)
add_failure id (err e, w) = (err e, w)

-- A batch, without the event log: the identifiers of the failed messages, in order.
unfoldable pub batch : Env → Host → List SqsRecord → World → Result (List String) × World
batch env h [] w = (ok [], w)
batch env h (r ∷ rs) w =
    let (verdict, w') = deliver env h r w in
    elim verdict [
      | done ↦ batch env h rs w'
      | failed ↦ add_failure (id_of r) (batch env h rs w')
      | crashed e ↦ (err e, w')
    ]

module _ {R : Type 0} (env : Env) (h : Host) (repo : Option (Repo R)) where
  -- The answer and the final world of a run, as far as a caller can see them.
  abbrev pub seen : Result (List String) × State R → Result (List String) × World
  seen (result, s) = (result, s.world)

  abbrev pub failures_of : SqsRecord → Verdict → Result (List String)
  failures_of r done = ok []
  failures_of r failed = ok (id_of r ∷ [])
  failures_of r (crashed e) = err e

  pub process_record-deliver :
      (r : SqsRecord) (s : State R)
      → seen (process_record env h repo r s)
        ≡ (failures_of r (deliver env h r s.world).0, (deliver env h r s.world).1)
  unfolding process_record process_event deliver
  process_record-deliver r s = ground arith

  -- For every event log and for none, `lambda_handler` reports the identifiers of exactly the
  -- messages that do not validate or whose handler raises, in order, or crashes where the reference
  -- without a log crashes, and leaves the same world: the event log has no influence on the batch.
  pub lambda_handler-batch :
      (rs : List SqsRecord) (s : State R)
      → seen (lambda_handler env h repo rs s) ≡ batch env h rs s.world
  unfolding lambda_handler batch
  lambda_handler-batch [] s = refl
  lambda_handler-batch (r ∷ rs) s =
      ground (
        arith,
        process_record-deliver r s,
        lambda_handler-batch rs (process_record env h repo r s).1,
      )
