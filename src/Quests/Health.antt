-- ===== src/Quests/Health.antt =====
-- app/quests/evaluator.py against a lingo-core that is up.
use lingo_async.Prelude.{
  ◌≡◌, refl, String, not, Option, none, some, List, [], ◌∷◌, All, arith, if_either, if◌then◌else◌,
}
use lingo_async.Prelude.Int.{ℤ, pos, leb_ℤ}
use lingo_async.Python.Exn.{Result, ok}
use lingo_async.Python.Json.{
  Json, Fields, null, bool, int, float, str, arr, dict, get, lookup, is_text, list_of,
}
use lingo_async.World.{Env, World, M, progress, user, pure, lift, ◌>>=◌}
use lingo_async.World.Succeeds.{
  Success, Succeeds, Succeeds-pure, Succeeds-lift, Succeeds-bind, Succeeds-if, Any,
}
use lingo_async.Client.{LingoCoreClient, bump_call, list_call, new, list_quests, bump_progress}
use lingo_async.Client.Health.{
  IsHealthy, IsUp, IsQuest, QuestObject, Fits, new-IsUp, request-Succeeds,
}
use lingo_async.Contracts.Messages.{EventMessage}
use lingo_async.Quests.{
  QuestAction, quests_of, progress_of, current_of, required_key, or_value, bump, advance_quest,
  advance_quests, with_action, run_quests, evaluate_pair, evaluate_quests_for, event_unit_and_delta,
}
use lingo_async.Quests.Answers.{progress_read, current_read, items_read}

module _ (env : Env) (healthy : IsHealthy env) where
  module _ (c : LingoCoreClient) (u target : String) (delta : ℤ) where
    bump_progress-Succeeds :
        (id : Json) → Succeeds IsUp (Fits (progress u delta)) (bump_progress env c id u delta)
    unfolding bump_progress
    bump_progress-Succeeds id =
        request-Succeeds env healthy "bump_progress" (bump_call env c id u delta)

    abbrev action_of : Json → ℤ → Json → ℤ → Option Json → QuestAction
    action_of id before status_before after status = record {
      quest_id = id;
      unit = target;
      delta = delta;
      progress_before = before;
      progress_after = after;
      status_before = status_before;
      status_after = or_value status status_before;
    }

    -- What is read from the answer to a bump.
    abbrev outcome_of : (ℤ → Option Json → QuestAction) → Json → M QuestAction
    outcome_of act updated = do
      new_progress ← lift (progress_of updated)
      after ← lift (current_of new_progress)
      status ← lift (get "status" updated)
      pure (act after status)

    outcome_of-Succeeds :
        (act : ℤ → Option Json → QuestAction) (updated : Json)
        → Fits (progress u delta) updated
        → Succeeds IsUp Any (outcome_of act updated)
    unfolding get
    outcome_of-Succeeds act (dict us) h =
        let (after, current) = current_read h.progress h.current in
        Succeeds-bind IsUp Any (λ p. p ≡ dict h.progress) _ _
          (Succeeds-lift IsUp _ (progress_of (dict us)) (dict h.progress) (progress_read us h) refl)
          λ p same.
            Succeeds-bind IsUp Any Any _ _
              (Succeeds-lift IsUp Any (current_of p) after (rw (same) current) tt)
              λ after _.
                Succeeds-bind IsUp Any Any _ _
                  (Succeeds-lift IsUp Any (get "status" (dict us)) (lookup "status" us) refl tt)
                  λ status _. Succeeds-pure IsUp Any (act after status) tt
    outcome_of-Succeeds act null h = absurd h
    outcome_of-Succeeds act (bool _) h = absurd h
    outcome_of-Succeeds act (int _) h = absurd h
    outcome_of-Succeeds act (float _) h = absurd h
    outcome_of-Succeeds act (str _) h = absurd h
    outcome_of-Succeeds act (arr _) h = absurd h

    id_read : (fs : Fields) (q : IsQuest fs) → required_key "id" (dict fs) ≡ ok q.id
    id_read fs q = rw (q.id_found, required_key) refl

    bump-Succeeds :
        (fs : Fields) (q : IsQuest fs) (status : Json)
        → Succeeds IsUp Any (bump env c u target delta (dict fs) (dict q.progress.progress) status)
    unfolding bump get
    bump-Succeeds fs q status =
        let (before, current) = current_read q.progress.progress q.progress.current in
        Succeeds-bind IsUp Any Any _ _
          (Succeeds-lift IsUp Any (required_key "id" (dict fs)) q.id (id_read fs q) tt)
          λ id _.
            Succeeds-bind IsUp Any Any _ _
              (Succeeds-lift IsUp Any (current_of (dict q.progress.progress)) before current tt)
              λ before _.
                Succeeds-bind IsUp Any (Fits (progress u delta)) _
                  (outcome_of (action_of id before status)) (bump_progress-Succeeds id)
                  λ updated fits. outcome_of-Succeeds (action_of id before status) updated fits

    abbrev advance_from : Json → Json → Json → M (Option QuestAction)
    advance_from quest status found = do
      unit ← lift (get "unit" found)
      if not (is_text target unit)
          then pure none
          else do action ← bump env c u target delta quest found status; pure (some action)

    advance_from-Succeeds :
        (fs : Fields) (q : IsQuest fs) (status : Json)
        → Succeeds IsUp Any (advance_from (dict fs) status (dict q.progress.progress))
    unfolding get
    advance_from-Succeeds fs q status =
        Succeeds-bind IsUp Any Any _ _
          (Succeeds-lift IsUp Any (get "unit" (dict q.progress.progress))
            (lookup "unit" q.progress.progress) refl tt)
          λ unit _.
            Succeeds-if IsUp Any (not (is_text target unit)) _ _
              (λ _. Succeeds-pure IsUp Any none tt)
              (λ _.
                Succeeds-bind IsUp Any Any _ _ (bump-Succeeds fs q status)
                  λ action _. Succeeds-pure IsUp Any (some action) tt)

    advance_quest-Succeeds :
        (quest : Json)
        → QuestObject quest
        → Succeeds IsUp Any (advance_quest env c u target delta quest)
    unfolding advance_quest get
    advance_quest-Succeeds (dict fs) q =
        Succeeds-bind IsUp Any Any _ _
          (Succeeds-lift IsUp Any (get "status" (dict fs)) (lookup "status" fs) refl tt)
          λ status _.
            Succeeds-if IsUp Any (not (is_text "active" status)) _ _
              (λ _. Succeeds-pure IsUp Any none tt)
              (λ _.
                Succeeds-bind IsUp Any (λ p. p ≡ dict q.progress.progress) _
                  (advance_from (dict fs) (or_value status (str "active")))
                  (Succeeds-lift IsUp _ (progress_of (dict fs)) (dict q.progress.progress)
                    (progress_read fs q.progress) refl)
                  λ p same. rw (same) (advance_from-Succeeds fs q (or_value status (str "active"))))
    advance_quest-Succeeds null h = absurd h
    advance_quest-Succeeds (bool _) h = absurd h
    advance_quest-Succeeds (int _) h = absurd h
    advance_quest-Succeeds (float _) h = absurd h
    advance_quest-Succeeds (str _) h = absurd h
    advance_quest-Succeeds (arr _) h = absurd h

    advance_quests-Succeeds :
        (quests : List Json)
        → All QuestObject quests
        → Succeeds IsUp Any (advance_quests env c u target delta quests)
    unfolding advance_quests
    advance_quests-Succeeds [] h = Succeeds-pure IsUp Any [] tt
    advance_quests-Succeeds (quest ∷ quests) h =
        Succeeds-bind IsUp Any Any _ _ (advance_quest-Succeeds quest h.0) λ action _.
          Succeeds-bind IsUp Any Any _ _ (advance_quests-Succeeds quests h.1)
            λ actions _. Succeeds-pure IsUp Any (with_action action actions) tt

    abbrev advance_listed : Json → M (List QuestAction)
    advance_listed v = do quests ← lift (quests_of v); advance_quests env c u target delta quests

    advance_listed-Succeeds : (v : Json) → Fits (user u) v → Succeeds IsUp Any (advance_listed v)
    advance_listed-Succeeds (dict fs) h =
        Succeeds-bind IsUp Any (All QuestObject) _ _
          (Succeeds-lift IsUp (All QuestObject) (quests_of (dict fs)) (list_of h.items)
            (items_read fs h) h.quests)
          advance_quests-Succeeds
    advance_listed-Succeeds null h = absurd h
    advance_listed-Succeeds (bool _) h = absurd h
    advance_listed-Succeeds (int _) h = absurd h
    advance_listed-Succeeds (float _) h = absurd h
    advance_listed-Succeeds (str _) h = absurd h
    advance_listed-Succeeds (arr _) h = absurd h

  run_quests-Succeeds :
      (u target : String) (delta : ℤ) → Succeeds IsUp Any (run_quests env u target delta)
  unfolding run_quests Succeeds list_quests
  run_quests-Succeeds u target delta w up =
      let (c, w1) = new env w in
      let listed =
        request-Succeeds env healthy "list_quests" (list_call c u) w1 (new-IsUp env healthy w up) in
      let ran : run_quests env u target delta w
          ≡ advance_listed c u target delta listed.value (list_quests env c u w1).1 =
        ground (arith, listed.returned) in
      let done =
        advance_listed-Succeeds c u target delta listed.value listed.good (list_quests env c u w1).1
          listed.after in
      record {
        value = done.value;
        returned = rw (ran) done.returned;
        good = tt;
        after = rw (ran) done.after;
      }

  evaluate_pair-Succeeds :
      (u : String) (pair : Option (String × ℤ)) → Succeeds IsUp Any (evaluate_pair env u pair)
  unfolding Succeeds
  evaluate_pair-Succeeds u none w up = Succeeds-pure IsUp Any [] tt w up
  evaluate_pair-Succeeds u (some (target, delta)) w up =
      let P = λ (r : Result (List QuestAction) × World). Success IsUp Any (λ (_ : World). r) w in
      let nothing : P (ok [], w) = record { value = []; returned = refl; good = tt; after = up } in
      let found = run_quests-Succeeds u target delta w up in
      let ran : P (run_quests env u target delta w) = record {
        value = found.value;
        returned = found.returned;
        good = tt;
        after = found.after;
      } in
      let all =
        if_either P (leb_ℤ delta (pos 0)) (ok [], w) _ (λ _. nothing)
          (λ _. if_either P w.quests_surface_unmounted (ok [], w) _ (λ _. nothing) (λ _. ran)) in
      record { value = all.value; returned = all.returned; good = tt; after = all.after }

  pub evaluate-Succeeds :
      (u : String) (event : EventMessage) → Succeeds IsUp Any (evaluate_quests_for env u event)
  unfolding evaluate_quests_for
  evaluate-Succeeds u event = evaluate_pair-Succeeds u (event_unit_and_delta event)
