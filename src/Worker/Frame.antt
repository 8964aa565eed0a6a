-- ===== src/Worker/Frame.antt =====
-- A batch keeps what the steps of the handlers keep.
use lingo_async.Prelude.{List, [], ◌∷◌}
use lingo_async.Python.Exn.{Result, ok, err}
use lingo_async.World.{Env, World}
use lingo_async.World.Preserves.{Preserves}
use lingo_async.Client.Frame.{Frame}
use lingo_async.Contracts.Parse.{Parsed, parsed, invalid, raised}
use lingo_async.Handlers.Frame.{dispatch-Preserves}
use lingo_async.Prelude.{String, ◌≡◌, refl}
use lingo_async.Worker.{SqsRecord, Host, id_of}
use lingo_async.Worker.Batch.{
  done, failed, crashed, clocked, parse_record, deliver_parsed, deliver, add_failure, batch,
}

pub add_failure-world :
    (id : String) (x : Result (List String) × World) → (add_failure id x).1 ≡ x.1
add_failure-world id (ok ids, w) = refl
add_failure-world id (err e, w) = refl

module _ (env : Env) (I : World → Type 0) (f : Frame env I) (h : Host) where
  pub clocked-kept : (w : World) → I w → I (clocked w)
  clocked-kept w i = f.clock _ (f.clock w i)

  deliver_parsed-kept : (p : Parsed) (w : World) → I w → I (deliver_parsed env p w).1
  unfolding Preserves
  deliver_parsed-kept (parsed m) w i = dispatch-Preserves env I f m w i
  deliver_parsed-kept invalid w i = i
  deliver_parsed-kept (raised e) w i = i

  pub deliver-kept : (r : SqsRecord) (w : World) → I w → I (deliver env h r w).1
  unfolding deliver
  deliver-kept r w i = deliver_parsed-kept (parse_record h r) (clocked w) (clocked-kept w i)

  pub batch-kept : (rs : List SqsRecord) (w : World) → I w → I (batch env h rs w).1
  unfolding batch
  batch-kept [] w i = i
  batch-kept (r ∷ rs) w i =
      let w' = (deliver env h r w).1 in
      let delivered = deliver-kept r w i in
      let rest = batch-kept rs w' delivered in
      elim (deliver env h r w).0
          as (λ v. (deliver env h r w).0 ≡ v → I (batch env h (r ∷ rs) w).1) [
            | done ↦ λ e. rw (e, batch) rest
            | failed ↦
                λ e. rw (e, batch) (rw (add_failure-world (id_of r) (batch env h rs w')) rest)
            | crashed x ↦ λ e. rw (e, batch) delivered
          ]
        refl
