-- ===== src/Handlers/Fanout.antt =====
-- `handle` of app/handlers/xp_awarded.py when one of its steps fails, and where `_dispatch` of
-- app/handler.py sends each event.
use lingo_async.Prelude.{◌≡◌, ◌≢◌, refl, Bool, true, false, not, List, [], ◌+◌, ◌≤◌, arith}
use lingo_async.Python.Exn.{Exn, ok, err}
use lingo_async.Breaker.{open_state}
use lingo_async.World.{Env, World, M, Effect, sent, updated, update_failed, pure, ◌>>=◌}
use lingo_async.World.Keeps.{IsQuiet, counted, Keeps}
use lingo_async.Client.{LingoCoreClient, new, add_xp, xp_call}
use lingo_async.Client.Keeps.{request-Keeps, new-Keeps}
use lingo_async.Contracts.Messages.{
  EventMessage, XpAwarded, xp_awarded, lesson_completed, review_completed, friend_added, ad_watched,
  subscription_changed,
}
use lingo_async.Handlers.{
  Outcome, needs_credit, credit, credit_if_needed, handle_xp_awarded, handle_quest_event,
  handle_ad_watched, handle, registered, dispatch,
}
use lingo_async.Handlers.Credit.{is_xp, credits, fanout, credit-counted, delivery_credits}

-- A write to the leaderboard, or a call of lingo-core for a quest.
abbrev pub is_fanout : Effect → Bool
is_fanout (sent r) = not (is_xp r.payload)
is_fanout (updated _) = true
is_fanout (update_failed _) = true
is_fanout _ = false

is_fanout-IsQuiet : IsQuiet is_fanout
is_fanout-IsQuiet = record { opening = refl; closing = refl; sleeping = λ _. refl; clock = refl }

module _ (env : Env) where
  add_xp-Keeps :
      (c : LingoCoreClient) (m : XpAwarded)
      → Keeps is_fanout
          (add_xp env c m.user_id m.amount m.learning_language_id m.leaderboard_opt_in)
  unfolding add_xp
  add_xp-Keeps c m =
      request-Keeps is_fanout is_fanout-IsQuiet env
        (xp_call c m.user_id m.amount m.learning_language_id m.leaderboard_opt_in) refl "add_xp"

  add_xp-counted :
      (c : LingoCoreClient) (m : XpAwarded) (w : World)
      → counted is_fanout
          (add_xp env c m.user_id m.amount m.learning_language_id m.leaderboard_opt_in w).1
        ≡ counted is_fanout w
  unfolding Keeps
  add_xp-counted c m w = add_xp-Keeps c m w

  -- A credit that fails, of an event that is due for one, ends the handling of the event with its
  -- exception before anything is written to a leaderboard or asked of the quests.
  pub failed_credit_stops :
      (m : XpAwarded) (w : World) (e : Exn)
      → needs_credit m ≡ true
      → (credit env m w).0 ≡ err e
      → ((handle_xp_awarded env m w).0 ≡ err e)
        × (counted is_fanout (handle_xp_awarded env m w).1 ≡ counted is_fanout w)
  unfolding handle_xp_awarded credit_if_needed
  failed_credit_stops m w e n f = ground (
    arith,
    credit-counted env is_fanout m w,
    new-Keeps is_fanout env w refl,
    add_xp-counted (new env w).0 m (new env w).1,
  )

  fails :
      (m : XpAwarded) (w : World) (credited : List Outcome) (e : Exn)
      → (credit_if_needed env m w).0 ≡ ok credited
      → (fanout env m credited (credit_if_needed env m w).1).0 ≡ err e
      → (handle_xp_awarded env m w).0 ≡ err e
  unfolding handle_xp_awarded
  fails m w credited e c f = rw (c, ◌>>=◌) f

  -- If the credit of an event that is due for one goes through and a later step raises, the event
  -- fails, and its next delivery calls xp/add again, so that the two deliveries make at least two
  -- calls; the breaker is not open when each begins.
  pub credited_again :
      (m : XpAwarded) (w v : World) (credited : List Outcome) (e : Exn)
      → needs_credit m ≡ true
      → w.breaker.state ≢ open_state
      → (credit_if_needed env m w).0 ≡ ok credited
      → (fanout env m credited (credit_if_needed env m w).1).0 ≡ err e
      → v.breaker.state ≢ open_state
      → credits (handle_xp_awarded env m w).1 ≤ credits v
      → ((handle_xp_awarded env m w).0 ≡ err e)
        × (2 + credits w ≤ credits (handle_xp_awarded env m v).1)
  credited_again m w v credited e n cw c f cv before = (
    fails m w credited e c f,
    omega (arith, (delivery_credits env m w n cw).0, (delivery_credits env m v n cv).0),
  )

  -- The handler for each event, by its class.
  abbrev pub routed : EventMessage → M (List Outcome)
  routed (xp_awarded m) = handle_xp_awarded env m
  routed (lesson_completed m) = handle_quest_event env (lesson_completed m)
  routed (review_completed m) = handle_quest_event env (review_completed m)
  routed (friend_added m) = handle_quest_event env (friend_added m)
  routed (ad_watched m) = pure (handle_ad_watched m)
  routed (subscription_changed m) = pure []

  -- `_dispatch` calls, for every event, the handler of the event's own class; it never meets a type
  -- without a handler.
  pub dispatch-routed : (event : EventMessage) → dispatch env event ≡ routed event
  unfolding dispatch registered handle
  dispatch-routed (xp_awarded m) = refl
  dispatch-routed (lesson_completed m) = refl
  dispatch-routed (review_completed m) = refl
  dispatch-routed (friend_added m) = refl
  dispatch-routed (ad_watched m) = refl
  dispatch-routed (subscription_changed m) = refl
