-- ===== src/Quests/Frame.antt =====
-- What app/quests/evaluator.py keeps if its steps do.
use lingo_async.Prelude.{String, inl, inr, Option, none, some, List, [], ◌∷◌, if_either, not}
use lingo_async.Prelude.Int.{ℤ, pos, leb_ℤ}
use lingo_async.Python.Exn.{Result, ok, Result-cases}
use lingo_async.Python.Json.{Json, str, get, is_text}
use lingo_async.World.{Env, World, M, lift, ◌>>=◌}
use lingo_async.World.Preserves.{
  Preserves, Preserves-pure, Preserves-lift, Preserves-bind, Preserves-if,
}
use lingo_async.Client
use lingo_async.Client.{
  LingoCoreClient, bump_call, list_call, xp_call, request, list_quests, bump_progress,
}
use lingo_async.Contracts.Messages.{EventMessage}
use lingo_async.Quests.{
  QuestAction, quests_of, progress_of, current_of, required_key, or_value, bump, advance_quest,
  advance_quests, is_not_found, with_action, run_quests, evaluate_pair, evaluate_quests_for,
  event_unit_and_delta,
}
use lingo_async.Client.Frame.{Frame}

module _ (env : Env) (I : World → Type 0) (f : Frame env I) where
  module _ (c : LingoCoreClient) (u target : String) (delta : ℤ) where
    bump-Preserves :
        (quest progress status : Json)
        → Preserves I (bump env c u target delta quest progress status)
    unfolding bump bump_progress
    bump-Preserves quest progress status =
        Preserves-bind I _ _ (Preserves-lift I (required_key "id" quest)) λ id.
          Preserves-bind I _ _ (Preserves-lift I (current_of progress)) λ before.
            Preserves-bind I _ _ (f.asking "bump_progress" (bump_call env c id u delta)) λ updated.
              Preserves-bind I _ _ (Preserves-lift I (progress_of updated)) λ new_progress.
                Preserves-bind I _ _ (Preserves-lift I (current_of new_progress)) λ after.
                  Preserves-bind I _ _ (Preserves-lift I (get "status" updated))
                    λ status. Preserves-pure I _

    advance_quest-Preserves :
        (quest : Json) → Preserves I (advance_quest env c u target delta quest)
    unfolding advance_quest
    advance_quest-Preserves quest =
        Preserves-bind I _ _ (Preserves-lift I (get "status" quest)) λ status.
          Preserves-if I (not (is_text "active" status)) _ _ (Preserves-pure I none) (
            Preserves-bind I _ _ (Preserves-lift I (progress_of quest)) λ progress.
              Preserves-bind I _ _ (Preserves-lift I (get "unit" progress)) λ unit.
                Preserves-if I (not (is_text target unit)) _ _ (Preserves-pure I none) (
                  Preserves-bind I _ _
                    (bump-Preserves quest progress (or_value status (str "active")))
                    λ action. Preserves-pure I (some action)))

    advance_quests-Preserves :
        (quests : List Json) → Preserves I (advance_quests env c u target delta quests)
    unfolding advance_quests
    advance_quests-Preserves [] = Preserves-pure I []
    advance_quests-Preserves (quest ∷ quests) =
        Preserves-bind I _ _ (advance_quest-Preserves quest) λ action.
          Preserves-bind I _ _ (advance_quests-Preserves quests)
            λ actions. Preserves-pure I (with_action action actions)

  abbrev advance_listed : LingoCoreClient → String → String → ℤ → Json → M (List QuestAction)
  advance_listed c u target delta v = do
    quests ← lift (quests_of v)
    advance_quests env c u target delta quests

  advance_listed-Preserves :
      (c : LingoCoreClient) (u target : String) (delta : ℤ) (v : Json)
      → Preserves I (advance_listed c u target delta v)
  advance_listed-Preserves c u target delta v =
      Preserves-bind I _ _ (Preserves-lift I (quests_of v))
        (λ quests. advance_quests-Preserves c u target delta quests)

  run_quests-Preserves :
      (u target : String) (delta : ℤ) → Preserves I (run_quests env u target delta)
  unfolding run_quests Preserves list_quests
  run_quests-Preserves u target delta w h =
      let (c, w1) = Client.new env w in
      let w2 = (list_quests env c u w1).1 in
      let listed : I w2 = f.asking "list_quests" (list_call c u) w1 (f.client w h) in
      elim (Result-cases (list_quests env c u w1).0) [
        | inl (v, e) ↦ rw (e, run_quests) (advance_listed-Preserves c u target delta v w2 listed)
        | inr (x, e) ↦
            rw (e, run_quests)
              (if_either (λ (r : Result (List QuestAction) × World). I r.1) (is_not_found x) _ _
                (λ _. f.latch w2 listed) (λ _. listed))
      ]

  evaluate_pair-Preserves :
      (u : String) (pair : Option (String × ℤ)) → Preserves I (evaluate_pair env u pair)
  unfolding Preserves
  evaluate_pair-Preserves u none w h = h
  evaluate_pair-Preserves u (some (target, delta)) w h =
      let P = λ (r : Result (List QuestAction) × World). I r.1 in
      if_either P (leb_ℤ delta (pos 0)) (ok [], w) _ (λ _. h)
        (λ _.
          if_either P w.quests_surface_unmounted (ok [], w) _ (λ _. h)
            (λ _. run_quests-Preserves u target delta w h))

  pub evaluate-Preserves :
      (u : String) (event : EventMessage) → Preserves I (evaluate_quests_for env u event)
  unfolding evaluate_quests_for
  evaluate-Preserves u event = evaluate_pair-Preserves u (event_unit_and_delta event)
