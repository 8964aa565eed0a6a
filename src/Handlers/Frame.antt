-- ===== src/Handlers/Frame.antt =====
-- Every handler of app/handlers keeps what its steps keep.
use lingo_async.Python.Json.{get}
use lingo_async.World.{Env, World, M, pure, lift, ◌>>=◌}
use lingo_async.World.Preserves.{
  Preserves, Preserves-pure, Preserves-lift, Preserves-bind, Preserves-if,
}
use lingo_async.Client
use lingo_async.Client.{LingoCoreClient, xp_call}
use lingo_async.Contracts.Messages.{
  EventMessage, XpAwarded, xp_awarded, lesson_completed, review_completed, friend_added, ad_watched,
  subscription_changed, user_of,
}
use lingo_async.Handlers.{
  Outcome, xp_outcome, needs_credit, credit, credit_if_needed, leaderboard_step, handle_xp_awarded,
  handle_quest_event, dispatch,
}
use lingo_async.Handlers.Fanout.{routed, dispatch-routed}
use lingo_async.Client.Frame.{Frame}
use lingo_async.Quests.Frame.{evaluate-Preserves}
use lingo_async.Leaderboard.Frame.{update_leaderboard-Preserves}

module _ (env : Env) (I : World → Type 0) (f : Frame env I) where
  quest_event-Preserves : (event : EventMessage) → Preserves I (handle_quest_event env event)
  unfolding handle_quest_event
  quest_event-Preserves event =
      Preserves-bind I _ _ (evaluate-Preserves env I f (user_of event) event)
        λ found. Preserves-pure I _

  abbrev credited_by : LingoCoreClient → XpAwarded → M Outcome
  credited_by c m = do
    resp ← Client.add_xp env c m.user_id m.amount m.learning_language_id m.leaderboard_opt_in
    new_xp ← lift (get "new_xp" resp)
    pure (xp_outcome m new_xp)

  add_xp-Preserves :
      (c : LingoCoreClient) (m : XpAwarded)
      → Preserves I
          (Client.add_xp env c m.user_id m.amount m.learning_language_id m.leaderboard_opt_in)
  unfolding Client.add_xp
  add_xp-Preserves c m =
      f.asking "add_xp" (xp_call c m.user_id m.amount m.learning_language_id m.leaderboard_opt_in)

  credited_by-Preserves : (c : LingoCoreClient) (m : XpAwarded) → Preserves I (credited_by c m)
  credited_by-Preserves c m = Preserves-bind I _ _ (add_xp-Preserves c m) λ resp.
      Preserves-bind I _ _ (Preserves-lift I (get "new_xp" resp)) λ new_xp. Preserves-pure I _

  credit-Preserves : (m : XpAwarded) → Preserves I (credit env m)
  unfolding credit Preserves
  credit-Preserves m w h =
      credited_by-Preserves (Client.new env w).0 m (Client.new env w).1 (f.client w h)

  handle_xp_awarded-Preserves : (m : XpAwarded) → Preserves I (handle_xp_awarded env m)
  unfolding handle_xp_awarded credit_if_needed leaderboard_step
  handle_xp_awarded-Preserves m =
      Preserves-bind I _ _
        (Preserves-if I (needs_credit m) _ _
          (Preserves-bind I _ _ (credit-Preserves m) λ o. Preserves-pure I _) (Preserves-pure I _))
        λ credited.
          Preserves-bind I _ _
            (Preserves-if I env.settings.leaderboard_enabled _ _
              (Preserves-bind I _ _ (update_leaderboard-Preserves env I f m)
                λ written. Preserves-pure I _)
              (Preserves-pure I _))
            λ board.
              Preserves-bind I _ _ (evaluate-Preserves env I f m.user_id (xp_awarded m))
                λ found. Preserves-pure I _

  routed-Preserves : (event : EventMessage) → Preserves I (routed env event)
  routed-Preserves (xp_awarded m) = handle_xp_awarded-Preserves m
  routed-Preserves (lesson_completed m) = quest_event-Preserves (lesson_completed m)
  routed-Preserves (review_completed m) = quest_event-Preserves (review_completed m)
  routed-Preserves (friend_added m) = quest_event-Preserves (friend_added m)
  routed-Preserves (ad_watched m) = Preserves-pure I _
  routed-Preserves (subscription_changed m) = Preserves-pure I _

  -- Every handler keeps what its steps keep.
  pub dispatch-Preserves : (event : EventMessage) → Preserves I (dispatch env event)
  dispatch-Preserves event = rw (dispatch-routed env event) (routed-Preserves event)
