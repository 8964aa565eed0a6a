-- ===== src/Handlers/Credit.antt =====
-- When the handlers ask lingo-core to credit XP.
use lingo_async.Prelude.{
  ℕ, zero, suc, sym, ◌∙◌, not, ◌&&◌, String, ◌≡◌, ◌≢◌, refl, Bool, true, false, arith, List, [],
  ◌∷◌, ◌+◌, ◌≤◌, ◌++◌, map, lt→ltb,
}
use lingo_async.Prelude.Int.{ℤ, pos, negsuc, ltb_ℤ}
use lingo_async.Python.Json.{get}
use lingo_async.World.{Env, World, M, Effect, Payload, user, progress, xp, sent, lift, pure, ◌>>=◌}
use lingo_async.World.Keeps.{
  IsQuiet, counted, counted_bind, Keeps, Keeps-lift, Keeps-pure, Keeps-bind, Keeps-if,
}
use lingo_async.Breaker.{open_state, allow}
use lingo_async.Token.{resolve_internal_service_token, fetch_from_ssm}
use lingo_async.Client.{LingoCoreClient, new, max_attempts, add_xp, xp_call}
use lingo_async.Client.Keeps.{request-counted, new-Keeps}
use lingo_async.Contracts.Messages.{
  EventMessage, Source, lesson, review, manual, quest, streak, XpAwarded, xp_awarded,
  lesson_completed, review_completed, friend_added, ad_watched, subscription_changed, user_of,
}
use lingo_async.Leaderboard.Keeps.{update_leaderboard-Keeps}
use lingo_async.Quests.{evaluate_quests_for}
use lingo_async.Quests.Keeps.{evaluate_quests_for-Keeps}
use lingo_async.Handlers.{
  Outcome, xp_outcome, already_credited, needs_credit, credit, credit_if_needed, leaderboard_step,
  handle_xp_awarded, handle_quest_event, handle, registered, dispatch, bucket, quest_outcome,
  leaderboard_outcome,
}

abbrev pub is_xp : Payload → Bool
is_xp (xp _ _ _ _) = true
is_xp (user _) = false
is_xp (progress _ _) = false

-- A call of lingo-core's xp/add.
abbrev pub is_credit : Effect → Bool
is_credit (sent r) = is_xp r.payload
is_credit _ = false

abbrev pub credits : World → ℕ
credits = counted is_credit

is_credit-IsQuiet : IsQuiet is_credit
is_credit-IsQuiet = record { opening = refl; closing = refl; sleeping = λ _. refl; clock = refl }

abbrev is_positive : ℤ → Bool
is_positive (pos zero) = false
is_positive (pos (suc _)) = true
is_positive (negsuc _) = false

-- The sources whose XP no producer credits: lingo-core does it for a lesson.
abbrev is_left_over : Source → Bool
is_left_over lesson = false
is_left_over review = true
is_left_over quest = true
is_left_over manual = true
is_left_over streak = true

-- The events whose XP is left for the worker to credit.
abbrev pub is_due : EventMessage → Bool
is_due (xp_awarded m) = is_left_over m.source && is_positive m.amount
is_due _ = false

positive_amount : (n : ℤ) → is_positive n ≡ ltb_ℤ (pos 0) n
positive_amount (pos zero) = refl
positive_amount (pos (suc n)) = sym (lt→ltb 0 (suc n + 0) (omega arith))
positive_amount (negsuc n) = ground arith

left_over : (s : Source) → is_left_over s ≡ not (already_credited s)
left_over lesson = refl
left_over review = refl
left_over quest = refl
left_over manual = refl
left_over streak = refl

-- Just the events that are due pass the test of the first `if` of xp_awarded.py.
pub due-needs_credit : (m : XpAwarded) → is_due (xp_awarded m) ≡ needs_credit m
due-needs_credit m = rw (left_over m.source, positive_amount m.amount) refl

module _ (env : Env) where
  quests-Keeps :
      (u : String) (event : EventMessage) → Keeps is_credit (evaluate_quests_for env u event)
  quests-Keeps =
      evaluate_quests_for-Keeps is_credit is_credit-IsQuiet env refl (λ _ _. refl) (λ _ _ _ _. refl)

  quest_event-Keeps : (event : EventMessage) → Keeps is_credit (handle_quest_event env event)
  unfolding handle_quest_event
  quest_event-Keeps event =
      Keeps-bind is_credit _ _ (quests-Keeps (user_of event) event)
        λ found. Keeps-pure is_credit (quest_outcome found ∷ [])

  leaderboard_step-Keeps : (m : XpAwarded) → Keeps is_credit (leaderboard_step env m)
  unfolding leaderboard_step
  leaderboard_step-Keeps m =
      Keeps-if is_credit env.settings.leaderboard_enabled _ _
        (Keeps-bind is_credit _ _
          (update_leaderboard-Keeps is_credit is_credit-IsQuiet env (λ _. (refl, refl)) m)
          λ written. Keeps-pure is_credit (leaderboard_outcome (map bucket written)))
        (Keeps-pure is_credit _)

  -- What `handle` of xp_awarded.py does after the credit.
  abbrev pub fanout : XpAwarded → List Outcome → M (List Outcome)
  fanout m credited = do
    board ← leaderboard_step env m
    found ← evaluate_quests_for env m.user_id (xp_awarded m)
    pure (credited ++ board ∷ quest_outcome found ∷ [])

  fanout-Keeps : (m : XpAwarded) (credited : List Outcome) → Keeps is_credit (fanout m credited)
  fanout-Keeps m credited = Keeps-bind is_credit _ _ (leaderboard_step-Keeps m) λ board.
      Keeps-bind is_credit _ _ (quests-Keeps m.user_id (xp_awarded m))
        λ found. Keeps-pure is_credit _

  credit_if_needed-Keeps :
      (m : XpAwarded) → needs_credit m ≡ false → Keeps is_credit (credit_if_needed env m)
  unfolding credit_if_needed
  credit_if_needed-Keeps m n = rw n (Keeps-pure is_credit [])

  handle_xp_awarded-Keeps :
      (m : XpAwarded) → needs_credit m ≡ false → Keeps is_credit (handle_xp_awarded env m)
  unfolding handle_xp_awarded
  handle_xp_awarded-Keeps m n =
      Keeps-bind is_credit _ _ (credit_if_needed-Keeps m n) λ credited. fanout-Keeps m credited

  dispatch-Keeps :
      (event : EventMessage) → is_due event ≡ false → Keeps is_credit (dispatch env event)
  unfolding dispatch registered handle
  dispatch-Keeps (xp_awarded m) n = handle_xp_awarded-Keeps m (sym (due-needs_credit m) ∙ n)
  dispatch-Keeps (lesson_completed m) n = quest_event-Keeps (lesson_completed m)
  dispatch-Keeps (review_completed m) n = quest_event-Keeps (review_completed m)
  dispatch-Keeps (friend_added m) n = quest_event-Keeps (friend_added m)
  dispatch-Keeps (ad_watched m) n = Keeps-pure is_credit _
  dispatch-Keeps (subscription_changed m) n = Keeps-pure is_credit []

  -- The handling of an event calls lingo-core's xp/add only if it is an `xp_awarded` event with a
  -- positive amount whose producer has not credited it.
  pub no_credit_unless_due :
      (event : EventMessage) (w : World)
      → is_due event ≡ false
      → credits (dispatch env event w).1 ≡ credits w
  unfolding Keeps
  no_credit_unless_due event w n = dispatch-Keeps event n w

  add_xp-counted :
      (c : LingoCoreClient) (m : XpAwarded) (w : World)
      → w.breaker.state ≢ open_state
      → let v = (add_xp env c m.user_id m.amount m.learning_language_id m.leaderboard_opt_in w).1 in
        (1 + credits w ≤ credits v) × (credits v ≤ max_attempts env.settings + credits w)
  unfolding add_xp allow
  add_xp-counted c m w not_open =
      request-counted is_credit is_credit-IsQuiet env
        (xp_call c m.user_id m.amount m.learning_language_id m.leaderboard_opt_in) refl "add_xp" w
        (ground arith)

  -- What is counted after a credit is what is counted after its call of add_xp.
  pub credit-counted :
      (p : Effect → Bool) (m : XpAwarded) (w : World)
      → let (c, w') = new env w in
        counted p (credit env m w).1
        ≡ counted p
            (add_xp env c m.user_id m.amount m.learning_language_id m.leaderboard_opt_in w').1
  unfolding credit
  credit-counted p m w =
      counted_bind p
        (add_xp env (new env w).0 m.user_id m.amount m.learning_language_id m.leaderboard_opt_in)
        (λ resp. do new_xp ← lift (get "new_xp" resp); pure (xp_outcome m new_xp)) (new env w).1
        λ resp.
          Keeps-bind p _ _ (Keeps-lift p (get "new_xp" resp))
            λ new_xp. Keeps-pure p (xp_outcome m new_xp)

  pub credit_if_needed-counted :
      (p : Effect → Bool) (m : XpAwarded) (w : World)
      → needs_credit m ≡ true
      → counted p (credit_if_needed env m w).1 ≡ counted p (credit env m w).1
  unfolding credit_if_needed
  credit_if_needed-counted p m w n =
      rw n (counted_bind p (credit env m) (λ o. pure (o ∷ [])) w (λ o. Keeps-pure p (o ∷ [])))

  pub new-breaker : (w : World) → (new env w).1.breaker ≡ w.breaker
  unfolding new resolve_internal_service_token fetch_from_ssm
  new-breaker w = ground arith

  -- One delivery of an event that is due for a credit, with a breaker that is not open, calls
  -- xp/add at least once and at most `max_attempts` times, whatever becomes of the event.
  pub delivery_credits :
      (m : XpAwarded) (w : World)
      → needs_credit m ≡ true
      → w.breaker.state ≢ open_state
      → (1 + credits w ≤ credits (handle_xp_awarded env m w).1)
        × (credits (handle_xp_awarded env m w).1 ≤ max_attempts env.settings + credits w)
  unfolding handle_xp_awarded
  delivery_credits m w n not_open = ground (
    arith,
    counted_bind is_credit (credit_if_needed env m) (fanout m) w (fanout-Keeps m),
    credit_if_needed-counted is_credit m w n,
    credit-counted is_credit m w,
    new-breaker w,
    new-Keeps is_credit env w refl,
    add_xp-counted (new env w).0 m (new env w).1,
  )
