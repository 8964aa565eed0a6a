-- ===== src/Quests/Latch.antt =====
-- The latch of app/quests/evaluator.py: one 404 stops all later evaluations in a container.
use lingo_async.Prelude.{String, ◌≡◌, refl, true, false, some, List, [], ◌∷◌, arith}
use lingo_async.Prelude.Int.{ℤ, pos, leb_ℤ}
use lingo_async.Python.Exn.{ok, err, http_status}
use lingo_async.World.{Env, World}
use lingo_async.Client.{new, list_quests}
use lingo_async.Contracts.Messages.{EventMessage}
use lingo_async.Quests.{event_unit_and_delta, run_quests, evaluate_quests_for}

-- The evaluation of several events, one after the other.
unfoldable pub evaluations : Env → List (String × EventMessage) → World → World
evaluations env [] w = w
evaluations env ((user, event) ∷ rest) w =
    evaluations env rest (evaluate_quests_for env user event w).1

module _ (env : Env) where
  evaluate-latched :
      (user : String) (event : EventMessage) (w : World)
      → w.quests_surface_unmounted ≡ true
      → evaluate_quests_for env user event w ≡ (ok [], w)
  unfolding evaluate_quests_for
  evaluate-latched user event w l = ground arith

  evaluations-latched :
      (events : List (String × EventMessage)) (w : World)
      → w.quests_surface_unmounted ≡ true
      → evaluations env events w ≡ w
  unfolding evaluations
  evaluations-latched [] w l = refl
  evaluations-latched ((user, event) ∷ rest) w l =
      rw (evaluate-latched user event w l) (evaluations-latched rest w l)

  -- If the latch is not set and the list of quests answers 404 to an event with a unit and a
  -- positive delta, the event does not fail, and whatever events are evaluated later in the
  -- container change nothing and call nothing.
  pub unmounted_once :
      (user : String) (event : EventMessage) (unit : String) (delta : ℤ) (w : World)
      (later : List (String × EventMessage))
      → event_unit_and_delta event ≡ some (unit, delta)
      → leb_ℤ delta (pos 0) ≡ false
      → w.quests_surface_unmounted ≡ false
      → (list_quests env (new env w).0 user (new env w).1).0 ≡ err (http_status 404)
      → let (r, w') = evaluate_quests_for env user event w in
        (r ≡ ok []) × (evaluations env later w' ≡ w')
  unfolding evaluate_quests_for run_quests
  unmounted_once user event unit delta w later e d l f =
      ground (arith, evaluations-latched later (evaluate_quests_for env user event w).1)
