-- ===== src/Handlers/Health.antt =====
-- The handlers while everything outside is up.
use lingo_async.Prelude.{refl, List, [], ◌∷◌, ◌++◌, map}
use lingo_async.Python.Json.{Json, null, bool, int, float, str, arr, dict, get, lookup}
use lingo_async.World.{Env, M, xp, pure, lift, ◌>>=◌}
use lingo_async.World.Succeeds.{
  Succeeds, Succeeds-pure, Succeeds-lift, Succeeds-bind, Succeeds-if, Any,
}
use lingo_async.Client
use lingo_async.Client.{LingoCoreClient, xp_call}
use lingo_async.Client.Health.{IsHealthy, IsUp, Fits, new-IsUp, request-Succeeds}
use lingo_async.Contracts.Messages.{
  EventMessage, XpAwarded, xp_awarded, lesson_completed, review_completed, friend_added, ad_watched,
  subscription_changed, user_of,
}
use lingo_async.Leaderboard.Health.{update_leaderboard-Succeeds}
use lingo_async.Quests.Health.{evaluate-Succeeds}
use lingo_async.Handlers.{
  Outcome, bucket, skipped, leaderboard_outcome, quest_outcome, xp_outcome, needs_credit, credit,
  credit_if_needed, leaderboard_step, handle_xp_awarded, handle_quest_event, dispatch,
}
use lingo_async.Quests.{evaluate_quests_for}
use lingo_async.Leaderboard.{update_leaderboard}
use lingo_async.Handlers.Credit.{fanout}
use lingo_async.Handlers.Fanout.{routed, dispatch-routed}

module _ (env : Env) (healthy : IsHealthy env) where
  add_xp-Succeeds :
      (c : LingoCoreClient) (m : XpAwarded)
      → Succeeds IsUp
          (Fits (xp m.user_id m.amount m.learning_language_id m.leaderboard_opt_in))
          (Client.add_xp env c m.user_id m.amount m.learning_language_id m.leaderboard_opt_in)
  unfolding Client.add_xp
  add_xp-Succeeds c m =
      request-Succeeds env healthy "add_xp"
        (xp_call c m.user_id m.amount m.learning_language_id m.leaderboard_opt_in)

  abbrev read_credit : XpAwarded → Json → M Outcome
  read_credit m resp = do new_xp ← lift (get "new_xp" resp); pure (xp_outcome m new_xp)

  read_credit-Succeeds :
      (m : XpAwarded) (resp : Json)
      → Fits (xp m.user_id m.amount m.learning_language_id m.leaderboard_opt_in) resp
      → Succeeds IsUp Any (read_credit m resp)
  unfolding get
  read_credit-Succeeds m (dict fs) h =
      Succeeds-bind IsUp Any Any _ _
        (Succeeds-lift IsUp Any (get "new_xp" (dict fs)) (lookup "new_xp" fs) refl tt)
        λ new_xp _. Succeeds-pure IsUp Any (xp_outcome m new_xp) tt
  read_credit-Succeeds m null h = absurd h
  read_credit-Succeeds m (bool _) h = absurd h
  read_credit-Succeeds m (int _) h = absurd h
  read_credit-Succeeds m (float _) h = absurd h
  read_credit-Succeeds m (str _) h = absurd h
  read_credit-Succeeds m (arr _) h = absurd h

  abbrev credited_by : LingoCoreClient → XpAwarded → M Outcome
  credited_by c m = do
    resp ← Client.add_xp env c m.user_id m.amount m.learning_language_id m.leaderboard_opt_in
    read_credit m resp

  credited_by-Succeeds : (c : LingoCoreClient) (m : XpAwarded) → Succeeds IsUp Any (credited_by c m)
  credited_by-Succeeds c m =
      Succeeds-bind IsUp Any _ _ (read_credit m) (add_xp-Succeeds c m) (read_credit-Succeeds m)

  credit-Succeeds : (m : XpAwarded) → Succeeds IsUp Any (credit env m)
  unfolding credit Succeeds
  credit-Succeeds m w up =
      let (c, w1) = Client.new env w in
      let done = credited_by-Succeeds c m w1 (new-IsUp env healthy w up) in
      record { value = done.value; returned = done.returned; good = tt; after = done.after }

  credit_if_needed-Succeeds : (m : XpAwarded) → Succeeds IsUp Any (credit_if_needed env m)
  unfolding credit_if_needed
  credit_if_needed-Succeeds m =
      Succeeds-if IsUp Any (needs_credit m) _ _
        (λ _.
          Succeeds-bind IsUp Any Any (credit env m) (λ o. pure (o ∷ [])) (credit-Succeeds m)
            λ o _. Succeeds-pure IsUp Any (o ∷ []) tt)
        (λ _. Succeeds-pure IsUp Any [] tt)

  leaderboard_step-Succeeds : (m : XpAwarded) → Succeeds IsUp Any (leaderboard_step env m)
  unfolding leaderboard_step
  leaderboard_step-Succeeds m =
      Succeeds-if IsUp Any env.settings.leaderboard_enabled _ _
        (λ _.
          Succeeds-bind IsUp Any Any (update_leaderboard env m)
            (λ written. pure (leaderboard_outcome (map bucket written)))
            (update_leaderboard-Succeeds env healthy m)
            λ written _. Succeeds-pure IsUp Any (leaderboard_outcome (map bucket written)) tt)
        (λ _. Succeeds-pure IsUp Any (leaderboard_outcome (skipped "leaderboard_disabled" ∷ [])) tt)

  abbrev evaluated : XpAwarded → List Outcome → Outcome → M (List Outcome)
  evaluated m credited board = do
    found ← evaluate_quests_for env m.user_id (xp_awarded m)
    pure (credited ++ board ∷ quest_outcome found ∷ [])

  evaluated-Succeeds :
      (m : XpAwarded) (credited : List Outcome) (board : Outcome)
      → Succeeds IsUp Any (evaluated m credited board)
  evaluated-Succeeds m credited board =
      Succeeds-bind IsUp Any Any (evaluate_quests_for env m.user_id (xp_awarded m))
        (λ found. pure (credited ++ board ∷ quest_outcome found ∷ []))
        (evaluate-Succeeds env healthy m.user_id (xp_awarded m))
        λ found _. Succeeds-pure IsUp Any (credited ++ board ∷ quest_outcome found ∷ []) tt

  fanout-Succeeds :
      (m : XpAwarded) (credited : List Outcome) → Succeeds IsUp Any (fanout env m credited)
  fanout-Succeeds m credited =
      Succeeds-bind IsUp Any Any (leaderboard_step env m) (evaluated m credited)
        (leaderboard_step-Succeeds m) λ board _. evaluated-Succeeds m credited board

  handle_xp_awarded-Succeeds : (m : XpAwarded) → Succeeds IsUp Any (handle_xp_awarded env m)
  unfolding handle_xp_awarded
  handle_xp_awarded-Succeeds m =
      Succeeds-bind IsUp Any Any (credit_if_needed env m) (fanout env m)
        (credit_if_needed-Succeeds m) λ credited _. fanout-Succeeds m credited

  quest_event-Succeeds : (event : EventMessage) → Succeeds IsUp Any (handle_quest_event env event)
  unfolding handle_quest_event
  quest_event-Succeeds event =
      Succeeds-bind IsUp Any Any (evaluate_quests_for env (user_of event) event)
        (λ found. pure (quest_outcome found ∷ []))
        (evaluate-Succeeds env healthy (user_of event) event)
        λ found _. Succeeds-pure IsUp Any (quest_outcome found ∷ []) tt

  routed-Succeeds : (event : EventMessage) → Succeeds IsUp Any (routed env event)
  routed-Succeeds (xp_awarded m) = handle_xp_awarded-Succeeds m
  routed-Succeeds (lesson_completed m) = quest_event-Succeeds (lesson_completed m)
  routed-Succeeds (review_completed m) = quest_event-Succeeds (review_completed m)
  routed-Succeeds (friend_added m) = quest_event-Succeeds (friend_added m)
  routed-Succeeds (ad_watched m) = Succeeds-pure IsUp Any _ tt
  routed-Succeeds (subscription_changed m) = Succeeds-pure IsUp Any _ tt

  -- Every handler returns, whatever the event.
  pub dispatch-Succeeds : (event : EventMessage) → Succeeds IsUp Any (dispatch env event)
  dispatch-Succeeds event = rw (dispatch-routed env event) (routed-Succeeds event)
