-- ===== src/Worker/Published.antt =====
-- A batch of app/handler.py in which every record was published as the producers publish.
use lingo_async.Prelude.{String, ◌≡◌, refl, ◌∙◌, Option, List, [], ◌∷◌, arith, some}
use lingo_async.Python.Exn.{ok, err}
use lingo_async.Python.Json.{Json, Fields, dict}
use lingo_async.World.{Env, World}
use lingo_async.Contracts.Messages.{EventMessage, InRange, Stamp}
use lingo_async.Contracts.Envelope.{text}
use lingo_async.Contracts.Parse.{parsed}
use lingo_async.Contracts.Unwrap.{Encoders, IsEnvelope, IsLawful, wire}
use lingo_async.Contracts.Wire.{Carries, Reads}
use lingo_async.Contracts.Wire.RoundTrip.{parse_event-wire}
use lingo_async.Handlers.{dispatch}
use lingo_async.EventLog.{Repo}
use lingo_async.Worker.{SqsRecord, Host, id_of, body_of, State, lambda_handler}
use lingo_async.Worker.Batch.{clocked, parse_record, deliver, batch, seen, lambda_handler-batch}

-- The record's body is the two-layer wire format of a payload whose JSON object carries the
-- message, which is in range.
pub record Publishes (h : Host) (e : Encoders) (time : Stamp → Json) (r : SqsRecord)
    (m : EventMessage) : Type 0 where
  pub payload : String
  pub envelope : Fields
  pub fields : Fields
  pub body_is : body_of r ≡ wire h.codec e payload envelope
  pub sealed : IsEnvelope h.codec e payload envelope
  pub lawful : IsLawful h.codec e payload envelope
  pub parses : h.pydantic.from_json (text payload) ≡ some (dict fields)
  pub reads : Reads time h.pydantic.json_mode m
  pub carries : Carries time fields m
  pub in_range : InRange m

-- Record by record.
abbrev pub PublishesAll :
    Host → Encoders → (Stamp → Json) → List SqsRecord → List EventMessage → Type 0
PublishesAll h e time [] [] = Unit
PublishesAll h e time (r ∷ rs) (m ∷ ms) = Publishes h e time r m × PublishesAll h e time rs ms
PublishesAll h e time _ _ = ⊥

-- The messages handled in order, the clock read twice before each.
unfoldable pub handle_all : Env → List EventMessage → World → World
handle_all env [] w = w
handle_all env (m ∷ ms) w = handle_all env ms (dispatch env m (clocked w)).1

-- The identifiers of the records whose message's handler raised, in order.
unfoldable pub unhandled : Env → List SqsRecord → List EventMessage → World → List String
unhandled env (r ∷ rs) (m ∷ ms) w =
    let (result, w') = dispatch env m (clocked w) in
    let rest = unhandled env rs ms w' in elim result [ ok _ ↦ rest | err _ ↦ id_of r ∷ rest ]
unhandled env _ _ w = []

module _ (env : Env) (h : Host) (e : Encoders) (time : Stamp → Json) where
  parse_record-published :
      (r : SqsRecord) (m : EventMessage) → Publishes h e time r m → parse_record h r ≡ parsed m
  parse_record-published r m p = rw (p.body_is) (
      parse_event-wire time h.codec e h.pydantic p.payload p.envelope p.fields m p.sealed p.lawful
        p.parses p.reads p.carries p.in_range)

  batch-published :
      (rs : List SqsRecord) (ms : List EventMessage) (w : World)
      → PublishesAll h e time rs ms
      → batch env h rs w ≡ (ok (unhandled env rs ms w), handle_all env ms w)
  unfolding batch unhandled handle_all deliver
  batch-published [] [] w p = refl
  batch-published (r ∷ rs) (m ∷ ms) w p = ground (
    arith,
    parse_record-published r m p.0,
    batch-published rs ms (dispatch env m (clocked w)).1 p.1,
  )
  batch-published (r ∷ rs) [] w p = absurd p
  batch-published [] (m ∷ ms) w p = absurd p

  -- If json, base64 and UTF-8 decode what the producer encoded with them, pydantic takes values of
  -- the right types as they are, and each record of a batch is the two-layer wire body of an object
  -- that carries a message in range, whatever kombu's envelope holds besides, whatever the order of
  -- the object's fields and also without the fields that have defaults, then for every event log
  -- `lambda_handler` returns, hands these messages in order to their handlers, and reports exactly
  -- the records whose handler raised.
  pub published_batch :
      {R : Type 0} (repo : Option (Repo R)) (rs : List SqsRecord) (ms : List EventMessage)
      (s : State R)
      → PublishesAll h e time rs ms
      → seen env h repo (lambda_handler env h repo rs s)
        ≡ (ok (unhandled env rs ms s.world), handle_all env ms s.world)
  published_batch repo rs ms s p =
      lambda_handler-batch env h repo rs s ∙ batch-published rs ms s.world p
