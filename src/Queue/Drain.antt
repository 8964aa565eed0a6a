-- ===== src/Queue/Drain.antt =====
-- The queue while everything outside is up.
use mathlib.Core.List.Perm
use lingo_async.Prelude.Permutations.{Perm}
use lingo_async.Prelude.{◌≡◌, refl, ap, sym, ◌∙◌, subst, none, some, List, [], ◌∷◌, ◌++◌}
use lingo_async.Python.Exn.{Result, ok, err}
use lingo_async.Python.Json.{Json}
use lingo_async.World.{Env, World}
use lingo_async.Client.Health.{IsHealthy, IsUp}
use lingo_async.Contracts.Messages.{EventMessage, Stamp}
use lingo_async.Contracts.Unwrap.{Encoders}
use lingo_async.EventLog.Provider.{Logs, Drivers}
use lingo_async.Worker.{SqsRecord, Host, State, Failures}
use lingo_async.Worker.Batch.{batch, lambda_handler-batch}
use lingo_async.Worker.Entry.{Opens, invoke, batch_unless, invoke-batch}
use lingo_async.Worker.Published.{PublishesAll}
use lingo_async.Worker.Health.{healthy_batch}
use lingo_async.Queue.{Queue, kept, answered, Reachable, later, hand_over}

abbrev pub concat : List (List SqsRecord) → List SqsRecord
concat [] = []
concat (rs ∷ batches) = rs ++ concat batches

-- One container is given the batches one after another, of a queue that holds just them.
unfoldable pub drain :
    Env → Host → Drivers → List (List SqsRecord) → State Logs → Queue → State Logs × Queue
drain env h d [] s q = (s, q)
drain env h d (rs ∷ batches) s q =
    let (out, s') = invoke env h d (some rs) s in
    drain env h d batches s' (answered out rs s (concat batches) q)

-- Each batch, with its messages, was published as the producers publish.
abbrev pub BatchesPublished :
    Host → Encoders → (Stamp → Json) → List (List SqsRecord) → List (List EventMessage) → Type 0
BatchesPublished h e time [] [] = Unit
BatchesPublished h e time (rs ∷ batches) (ms ∷ rest) =
    PublishesAll h e time rs ms × BatchesPublished h e time batches rest
BatchesPublished h e time _ _ = ⊥

kept-none : (rs : List SqsRecord) → kept [] rs ≡ []
unfolding kept
kept-none [] = refl
kept-none (r ∷ rs) = kept-none rs

answered-same :
    (out : Result Failures) (rs : List SqsRecord) (s : State Logs) (rest : List SqsRecord)
    (q : Queue)
    → ((answered out rs s rest q).published ≡ q.published)
      × ((answered out rs s rest q).dead ≡ q.dead)
answered-same (ok ids) rs s rest q = (refl, refl)
answered-same (err e) rs s rest q = (refl, refl)

-- The pending records are gone, none of them to the dead-letter queue, and the breaker is not open.
abbrev pub Drained : Env → Host → Drivers → Queue → State Logs × Queue → Type 0
Drained env h d q (s, q') =
    Reachable env h d q'
    × (q'.pending ≡ [])
    × (q'.published ≡ q.published)
    × (q'.dead ≡ q.dead)
    × IsUp s.world

module _ (env : Env) (healthy : IsHealthy env) (h : Host) (e : Encoders) (time : Stamp → Json) where
  batch-healthy :
      (rs : List SqsRecord) (ms : List EventMessage) (w : World)
      → IsUp w
      → PublishesAll h e time rs ms
      → ((batch env h rs w).0 ≡ ok []) × IsUp (batch env h rs w).1
  batch-healthy rs ms w up p =
      let s : State (Unit {0}) = record { world = w; log = tt } in
      let run = lambda_handler-batch env h none rs s in
      let (returned, still_up) = healthy_batch env healthy h e time none rs ms s up p in
      (sym (ap (λ o. o.0) run) ∙ returned, subst IsUp (ap (λ o. o.1) run) still_up)

  module _ (d : Drivers) (opens : Opens env d) where
    invoke-healthy :
        (rs : List SqsRecord) (ms : List EventMessage) (s : State Logs)
        → IsUp s.world
        → PublishesAll h e time rs ms
        → ((invoke env h d (some rs) s).0 ≡ ok []) × IsUp (invoke env h d (some rs) s).1.world
    invoke-healthy rs ms s up p =
        let (returned, still_up) = batch-healthy rs ms s.world up p in
        let run =
          invoke-batch env h d (some rs) s
          ∙ ap (batch_unless env h rs s.world) (opens.opens s.log) in
        (ap (λ o. o.0) run ∙ returned, subst IsUp (sym (ap (λ o. o.1) run)) still_up)

    answered-healthy :
        (rs rest : List SqsRecord) (ms : List EventMessage) (s : State Logs) (q : Queue)
        → IsUp s.world
        → PublishesAll h e time rs ms
        → (answered (invoke env h d (some rs) s).0 rs s rest q).pending ≡ rest
    answered-healthy rs rest ms s q up p = rw ((invoke-healthy rs ms s up p).0, kept-none rs) refl

    -- If the breaker is not open at the start, lingo-core answers every request with a success and
    -- a body of the shape the worker reads, the leaderboard takes every write, and the clock reads
    -- times of the calendar up to year 9998, and the event log can be constructed, then a queue
    -- whose pending records were published as the producers publish, divided into batches in any
    -- way, is empty once each batch has been delivered once, and the dead-letter queue is as it
    -- was.
    pub drains :
        (batches : List (List SqsRecord)) (messages : List (List EventMessage)) (s : State Logs)
        (q : Queue)
        → IsUp s.world
        → BatchesPublished h e time batches messages
        → Reachable env h d q
        → q.pending ≡ concat batches
        → Drained env h d q (drain env h d batches s q)
    unfolding drain
    drains [] [] s q up p r same = (r, same, refl, refl, up)
    drains (rs ∷ batches) (ms ∷ messages) s q up p r same =
        let out = invoke env h d (some rs) s in
        let q' = answered out.0 rs s (concat batches) q in
        let one = later r (
          hand_over rs (concat batches) s
            (subst (λ l. Perm q.pending l) same (Perm.refl q.pending))) in
        let rest =
          drains batches messages out.1 q' (invoke-healthy rs ms s up p.0).1 p.1 one
            (answered-healthy rs (concat batches) ms s q up p.0) in
        let (published, dead) = answered-same out.0 rs s (concat batches) q in
        (rest.0, rest.1, rest.2 ∙ published, rest.3 ∙ dead, rest.4)
    drains [] (ms ∷ messages) s q up p r same = absurd p
    drains (rs ∷ batches) [] s q up p r same = absurd p
