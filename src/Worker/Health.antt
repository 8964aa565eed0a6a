-- ===== src/Worker/Health.antt =====
-- A batch of app/handler.py while everything outside is up.
use lingo_async.Prelude.{◌≡◌, ◌≢◌, refl, ap, ◌∙◌, String, Option, List, [], ◌∷◌, arith}
use lingo_async.Python.Exn.{Result, ok}
use lingo_async.Python.Json.{Json}
use lingo_async.Breaker.{open_state}
use lingo_async.World.{Env, World}
use lingo_async.World.Succeeds.{Succeeds}
use lingo_async.Client.Health.{IsHealthy, IsUp}
use lingo_async.Contracts.Messages.{EventMessage, Stamp}
use lingo_async.Contracts.Unwrap.{Encoders}
use lingo_async.Handlers.{dispatch}
use lingo_async.Handlers.Health.{dispatch-Succeeds}
use lingo_async.EventLog.{Repo}
use lingo_async.Worker.{SqsRecord, Host, State, lambda_handler}
use lingo_async.Worker.Batch.{clocked}
use lingo_async.Worker.Published.{PublishesAll, handle_all, unhandled, published_batch}

module _ (env : Env) (healthy : IsHealthy env) where
  unhandled_none :
      (rs : List SqsRecord) (ms : List EventMessage) (w : World)
      → IsUp w
      → (unhandled env rs ms w ≡ []) × IsUp (handle_all env ms w)
  unfolding unhandled handle_all Succeeds
  unhandled_none [] [] w up = (refl, up)
  unhandled_none (r ∷ rs) (m ∷ ms) w up =
      let done = dispatch-Succeeds env healthy m (clocked w) up in
      let rest = unhandled_none rs ms (dispatch env m (clocked w)).1 done.after in
      (ground (arith, done.returned, rest.0), rest.1)
  unhandled_none (r ∷ rs) [] w up = (refl, up)
  unhandled_none [] (m ∷ ms) w up =
      let done = dispatch-Succeeds env healthy m (clocked w) up in
      (refl, (unhandled_none [] ms (dispatch env m (clocked w)).1 done.after).1)

  module _ (h : Host) (e : Encoders) (time : Stamp → Json) {R : Type 0}
      (repo : Option (Repo R)) where
    -- If each record of a batch is the wire body of an object that carries a message in range, the
    -- breaker is not open, lingo-core answers every request with a success and a body of the shape
    -- the worker reads, the leaderboard takes every write, and the clock reads times of the
    -- calendar up to year 9998, then `lambda_handler` returns and reports no record, and the
    -- breaker is not open.
    pub healthy_batch :
        (rs : List SqsRecord) (ms : List EventMessage) (s : State R)
        → s.world.breaker.state ≢ open_state
        → PublishesAll h e time rs ms
        → let out = lambda_handler env h repo rs s in
          (out.0 ≡ ok []) × (out.1.world.breaker.state ≢ open_state)
    healthy_batch rs ms s up p =
        let run = published_batch env h e time repo rs ms s p in
        let (none_left, still_up) = unhandled_none rs ms s.world up in
        (
          ap (λ (x : Result (List String) × World). x.0) run ∙ ap ok none_left,
          rw (ap (λ (x : Result (List String) × World). x.1) run) still_up,
        )
