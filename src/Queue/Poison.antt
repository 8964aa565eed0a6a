-- ===== src/Queue/Poison.antt =====
-- A batch with a record that makes `parse_event` raise something else than ValidationError: it
-- raises whenever it is delivered, so all of it comes again.
use lingo_async.Prelude.{
  ℕ, zero, suc, ◌+◌, ◌*◌, ◌≤◌, ◌≡◌, ap, Option, List, [], ◌∷◌, ◌++◌, arith, count, String,
}
use lingo_async.Python.Exn.{Exn, Result, err}
use lingo_async.Python.Json.{Json}
use lingo_async.World.{Env, World}
use lingo_async.World.Succeeds.{Succeeds}
use lingo_async.Client.Health.{IsHealthy, IsUp}
use lingo_async.Contracts.Messages.{EventMessage, Stamp, XpAwarded}
use lingo_async.Contracts.Unwrap.{Encoders}
use lingo_async.Contracts.Parse.{raised}
use lingo_async.Handlers.{dispatch}
use lingo_async.Handlers.Owed.{is_due_as, credits_of, event-credits_of}
use lingo_async.Handlers.Health.{dispatch-Succeeds}
use lingo_async.EventLog.{Repo}
use lingo_async.Worker.{SqsRecord, Host, State, lambda_handler}
use lingo_async.Worker.Batch.{clocked, parse_record}
use lingo_async.Worker.Isolation.{uncaught_parse_error}
use lingo_async.Worker.Published.{PublishesAll, handle_all, published_batch}

-- The state after n deliveries of the same batch.
unfoldable pub redelivered :
    {R : Type 0} → Env → Host → Option (Repo R) → List SqsRecord → ℕ → State R → State R
redelivered env h repo rs zero s = s
redelivered env h repo rs (suc n) s = redelivered env h repo rs n (lambda_handler env h repo rs s).1

module _ (env : Env) (healthy : IsHealthy env) (m : XpAwarded) where
  handle_all-credits :
      (ms : List EventMessage) (w : World)
      → IsUp w
      → (count (is_due_as m) ms + credits_of m w ≤ credits_of m (handle_all env ms w))
        × IsUp (handle_all env ms w)
  unfolding handle_all Succeeds
  handle_all-credits [] w up = (omega arith, up)
  handle_all-credits (event ∷ ms) w up =
      let (rest, still_up) =
        handle_all-credits ms (dispatch env event (clocked w)).1
          (dispatch-Succeeds env healthy event (clocked w) up).after in
      (ground (arith, event-credits_of env m event (clocked w) up, rest), still_up)

  module _ (h : Host) (e : Encoders) (time : Stamp → Json) {R : Type 0} (repo : Option (Repo R))
      (rs post : List SqsRecord) (ms : List EventMessage) (p : SqsRecord) (x : Exn)
      (published : PublishesAll h e time rs ms) (poisoned : parse_record h p ≡ raised x) where
    record Round (s : State R) : Type 0 where
      raises : (lambda_handler env h repo (rs ++ p ∷ post) s).0 ≡ err x
      credited :
          count (is_due_as m) ms + credits_of m s.world
          ≤ credits_of m (lambda_handler env h repo (rs ++ p ∷ post) s).1.world
      still_up : IsUp (lambda_handler env h repo (rs ++ p ∷ post) s).1.world

    round : (s : State R) → IsUp s.world → Round s
    round s up =
        let run = published_batch env h e time repo rs ms s published in
        let returned = ap (λ (o : Result (List String) × World). o.0) run in
        let world = ap (λ (o : Result (List String) × World). o.1) run in
        let raises = uncaught_parse_error env h repo rs post p s _ x returned poisoned in
        let (credited, still_up) = handle_all-credits ms s.world up in
        record {
          raises = ap (λ (o : Result (List String) × State R). o.0) raises;
          credited = rw (raises, world) credited;
          still_up = rw (raises, world) still_up;
        }

    -- If the breaker is not open at the start, lingo-core answers every request with a success and
    -- a body of the shape the worker reads, the leaderboard takes every write, and the clock reads
    -- times of the calendar up to year 9998, then a batch of published messages with one record in
    -- it that makes `parse_event` raise something else than ValidationError raises at every
    -- delivery, so that SQS deletes none of it, and each delivery calls xp/add anew for each event
    -- before that record that is due for a credit: after n deliveries, for every user, amount,
    -- language and opt-in, at least n calls with just these have been made for each of those events
    -- that awards just these.
    pub poison_recredits :
        (n : ℕ) (s : State R)
        → IsUp s.world
        → let after = redelivered env h repo (rs ++ p ∷ post) n s in
          ((lambda_handler env h repo (rs ++ p ∷ post) after).0 ≡ err x)
          × (n * count (is_due_as m) ms + credits_of m s.world ≤ credits_of m after.world)
    unfolding redelivered
    poison_recredits zero s up = ((round s up).raises, omega arith)
    poison_recredits (suc n) s up =
        let now = round s up in
        let (raises, credited) =
          poison_recredits n (lambda_handler env h repo (rs ++ p ∷ post) s).1 now.still_up in
        (raises, omega (arith, credited, now.credited))
