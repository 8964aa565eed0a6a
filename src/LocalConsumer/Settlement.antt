-- ===== src/LocalConsumer/Settlement.antt =====
-- Which messages the local consumer acknowledges.
use lingo_async.Prelude.{ℕ, String, ◌≡◌, ◌∙◌, ap, refl, Option, some, List, [], ◌∷◌}
use lingo_async.Python.Exn.{Result, ok, err}
use lingo_async.Python.Json.{Json}
use lingo_async.World.{Env, World}
use lingo_async.EventLog.{Repo}
use lingo_async.Worker.{SqsRecord, id_of, Host}
use lingo_async.Worker.Batch.{Verdict, done, failed, crashed, deliver, batch}
use lingo_async.Worker.Entry.{batch_unless, invoke-batch}
use lingo_async.EventLog.Provider.{Logs, Drivers, get_events_repo}
use lingo_async.LocalConsumer.{Settled, ack, reject, Consumer, synthetic, settled_by, handle}

abbrev pub settled_of : Verdict → Settled
settled_of done = ack
settled_of failed = reject
settled_of (crashed _) = reject

abbrev reports : SqsRecord → Verdict → Result (List String)
reports r done = ok []
reports r failed = ok (id_of r ∷ [])
reports r (crashed e) = err e

settled_by-reports : (r : SqsRecord) (v : Verdict) → settled_by (reports r v) ≡ settled_of v
settled_by-reports r done = refl
settled_by-reports r failed = refl
settled_by-reports r (crashed e) = refl

-- What becomes of a message: it is rejected if the event log cannot be constructed, before its
-- record is read.
abbrev pub settlement : Result (Option (Repo Logs)) → Verdict × World → World → Settled × World
settlement (err e) (v, w') w = (reject, w)
settlement (ok _) (v, w') w = (settled_of v, w')

module _ (env : Env) (h : Host) (d : Drivers) (decimal : ℕ → String) where
  single :
      (r : SqsRecord) (w : World)
      → batch env h (r ∷ []) w ≡ (reports r (deliver env h r w).0, (deliver env h r w).1)
  unfolding batch
  single r w =
      elim (deliver env h r w).0
          as (λ v.
            (deliver env h r w).0 ≡ v
            → batch env h (r ∷ []) w ≡ (reports r v, (deliver env h r w).1)) [
              | done ↦ λ e. rw (e, batch) refl
              | failed ↦ λ e. rw (e, batch) refl
              | crashed x ↦ λ e. rw (e, batch) refl
            ]
        refl

  settled_unless :
      (r : SqsRecord) (w : World) (opened : Result (Option (Repo Logs)))
      → let (result, w') = batch_unless env h (r ∷ []) w opened in
        (settled_by result, w') ≡ settlement opened (deliver env h r w) w
  settled_unless r w (err e) = refl
  settled_unless r w (ok repo) =
      ap (λ (x : Result (List String) × World). (settled_by x.0, x.1)) (single r w)
      ∙ ap (λ (v : Settled). (v, (deliver env h r w).1))
          (settled_by-reports r (deliver env h r w).0)

  -- The local consumer rejects a message and leaves the world as it was if the event log cannot be
  -- constructed; otherwise it acknowledges the message exactly if its record is delivered without a
  -- failure and rejects it else, also where `lambda_handler` raises, and its world is that of the
  -- one delivery.
  pub handle-settled :
      (tag : Option String) (body : Json) (c : Consumer)
      → let (settled, c') = handle env h d decimal tag body c in
        (settled, c'.worker.world)
        ≡ settlement
            (get_events_repo env.settings d c.worker.log).0
            (deliver env h (synthetic h decimal c.processed tag body) c.worker.world)
            c.worker.world
  unfolding handle
  handle-settled tag body c =
      let r = synthetic h decimal c.processed tag body in
      ap (λ (x : Result (List String) × World). (settled_by x.0, x.1))
        (invoke-batch env h d (some (r ∷ [])) c.worker)
      ∙ settled_unless r c.worker.world (get_events_repo env.settings d c.worker.log).0
