-- ===== src/LocalConsumer.antt =====
-- app/local_consumer.py: `LocalConsumer.handle` makes of one kombu message a batch of one record.
pub mod Settlement
pub mod Main
use lingo_async.Prelude.{ℕ, suc, String, ◌<>◌, Option, some, List, [], ◌∷◌, or_default}
use lingo_async.Python.Exn.{Result, ok, err}
use lingo_async.Python.Json.{Json, str}
use lingo_async.World.{Env}
use lingo_async.EventLog.Provider.{Logs, Drivers}
use lingo_async.Worker.{SqsRecord, Host, State}
use lingo_async.Worker.Entry.{invoke}

-- What is called on the message; `reject` is without requeue.
pub data Settled : Type 0 where
  ack reject : Settled

pub record Consumer : Type 0 where
  pub processed : ℕ
  pub worker : State Logs

-- body if isinstance(body, str) else json.dumps(body)
abbrev pub text_of_body : Host → Json → String
text_of_body h (str s) = s
text_of_body h body = h.codec.dumps body

-- The delivery tag is given as its text; `decimal` is `str` of a number.
abbrev pub synthetic : Host → (ℕ → String) → ℕ → Option String → Json → SqsRecord
synthetic h decimal processed tag body = record {
  message_id = some ("local-" <> or_default tag (decimal processed));
  body = some (text_of_body h body);
}

abbrev pub settled_by : Result (List String) → Settled
settled_by (err _) = reject
settled_by (ok []) = ack
settled_by (ok (_ ∷ _)) = reject

unfoldable pub handle :
    Env → Host → Drivers → (ℕ → String) → Option String → Json → Consumer → Settled × Consumer
handle env h d decimal tag body c =
    let record_of = synthetic h decimal c.processed tag body in
    let (result, s) = invoke env h d (some (record_of ∷ [])) c.worker in
    (settled_by result, record { processed = suc c.processed; worker = s })
