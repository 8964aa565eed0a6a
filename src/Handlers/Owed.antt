-- ===== src/Handlers/Owed.antt =====
-- The calls of lingo-core's xp/add for one credit, whatever becomes of the event.
use lingo_async.Prelude.{
  ℕ, ◌+◌, ◌≤◌, String, ◌≡◌, ◌≢◌, ◌∙◌, refl, sym, inl, inr, Bool, true, false, not, ◌&&◌, ◌==◌,
  eq_refl, Option, none, some, List, [], ◌∷◌, arith, count, Bool-cases,
}
use lingo_async.Prelude.Int.{same_number, same_number_refl}
use lingo_async.Python.Exn.{Result-cases}
use lingo_async.Breaker.{open_state, allow}
use lingo_async.World.{Env, World, M, Effect, Payload, user, progress, xp, sent, ◌>>=◌}
use lingo_async.World.Keeps.{IsQuiet, counted}
use lingo_async.World.Preserves.{Preserves, Preserves-pure, Preserves-bind, Preserves-if}
use lingo_async.Client.{LingoCoreClient, new, add_xp, xp_call}
use lingo_async.Client.Keeps.{request-counted}
use lingo_async.Client.Grows.{AtLeast, AtLeast-Frame, new-grows}
use lingo_async.Contracts.Messages.{
  EventMessage, XpAwarded, xp_awarded, lesson_completed, review_completed, friend_added, ad_watched,
  subscription_changed,
}
use lingo_async.Leaderboard.Frame.{update_leaderboard-Preserves}
use lingo_async.Quests.Frame.{evaluate-Preserves}
use lingo_async.Handlers.{
  Outcome, needs_credit, credit_if_needed, handle_xp_awarded, leaderboard_step, dispatch,
}
use lingo_async.Handlers.Credit.{
  is_due, due-needs_credit, fanout, credit-counted, credit_if_needed-counted, new-breaker,
}
use lingo_async.Handlers.Fanout.{dispatch-routed}
use lingo_async.Handlers.Frame.{dispatch-Preserves}

abbrev same_text : Option String → Option String → Bool
same_text none none = true
same_text (some a) (some b) = a == b
same_text none (some _) = false
same_text (some _) none = false

same_text_refl : (t : Option String) → same_text t t ≡ true
same_text_refl none = refl
same_text_refl (some a) = eq_refl a

abbrev same_bool : Bool → Bool → Bool
same_bool true b = b
same_bool false b = not b

-- A request to credit what this event awards: to its user, with its amount, language and opt-in.
abbrev pub awards : XpAwarded → Payload → Bool
awards m (xp user_id amount language opt_in) =
    (user_id == m.user_id)
    && (same_number amount m.amount
        && (same_text language m.learning_language_id && same_bool opt_in m.leaderboard_opt_in))
awards m (user _) = false
awards m (progress _ _) = false

-- A call of lingo-core's xp/add with what this event awards.
abbrev pub is_credit_of : XpAwarded → Effect → Bool
is_credit_of m (sent r) = awards m r.payload
is_credit_of m _ = false

abbrev pub credits_of : XpAwarded → World → ℕ
credits_of m = counted (is_credit_of m)

-- The event is due for a credit, and awards the same.
abbrev pub is_due_as : XpAwarded → EventMessage → Bool
is_due_as m (xp_awarded o) =
    is_due (xp_awarded o)
    && awards m (xp o.user_id o.amount o.learning_language_id o.leaderboard_opt_in)
is_due_as m _ = false

is_credit_of-IsQuiet : (m : XpAwarded) → IsQuiet (is_credit_of m)
is_credit_of-IsQuiet m = record {
  opening = refl;
  closing = refl;
  sleeping = λ _. refl;
  clock = refl;
}

-- An event is due as itself, if it is due.
pub is_due_as_self :
    (m : XpAwarded) → is_due (xp_awarded m) ≡ true → is_due_as m (xp_awarded m) ≡ true
is_due_as_self m due = ground (
  arith,
  due,
  eq_refl m.user_id,
  same_number_refl m.amount,
  same_text_refl m.learning_language_id,
)

module _ (env : Env) (m : XpAwarded) where
  abbrev p : Effect → Bool
  p = is_credit_of m

  add_xp-credits_of :
      (c : LingoCoreClient) (o : XpAwarded) (w : World)
      → awards m (xp o.user_id o.amount o.learning_language_id o.leaderboard_opt_in) ≡ true
      → w.breaker.state ≢ open_state
      → 1 + credits_of m w
        ≤ credits_of m
            (add_xp env c o.user_id o.amount o.learning_language_id o.leaderboard_opt_in w).1
  unfolding add_xp allow
  add_xp-credits_of c o w same not_open =
      (request-counted p (is_credit_of-IsQuiet m) env
        (xp_call c o.user_id o.amount o.learning_language_id o.leaderboard_opt_in) same "add_xp" w
        (ground arith)).0

  bind_grows :
      {A B : Type 0} (n : ℕ) (a : M A) (f : A → M B) (w : World)
      → n ≤ credits_of m (a w).1
      → ((x : A) → Preserves (AtLeast p env n) (f x))
      → n ≤ credits_of m ((a >>= f) w).1
  unfolding Preserves
  bind_grows n a f w le fs = elim (Result-cases (a w).0) [
    | inl (x, e) ↦ rw (e, ◌>>=◌) (fs x (a w).1 le)
    | inr (x, e) ↦ rw (e, ◌>>=◌) le
  ]

  fanout-grows :
      (n : ℕ) (o : XpAwarded) (credited : List Outcome)
      → Preserves (AtLeast p env n) (fanout env o credited)
  unfolding leaderboard_step
  fanout-grows n o credited =
      Preserves-bind I _ _
        (Preserves-if I env.settings.leaderboard_enabled _ _
          (Preserves-bind I _ _ (update_leaderboard-Preserves env I (AtLeast-Frame p env n) o)
            λ written. Preserves-pure I _)
          (Preserves-pure I _))
        λ board.
          Preserves-bind I _ _
            (evaluate-Preserves env I (AtLeast-Frame p env n) o.user_id (xp_awarded o))
            λ found. Preserves-pure I _
    where
      I : World → Type 0
      I = AtLeast p env n

  handle-credits_of :
      (o : XpAwarded) (w : World)
      → is_due_as m (xp_awarded o) ≡ true
      → w.breaker.state ≢ open_state
      → 1 + credits_of m w ≤ credits_of m (handle_xp_awarded env o w).1
  unfolding handle_xp_awarded
  handle-credits_of o w due not_open =
      let needed : needs_credit o ≡ true = sym (due-needs_credit o) ∙ ground (arith, due) in
      let grown = new-grows p env (credits_of m w) w (omega arith) in
      let called =
        add_xp-credits_of (new env w).0 o (new env w).1 (ground (arith, due))
          (rw (new-breaker env w) not_open) in
      bind_grows (1 + credits_of m w) (credit_if_needed env o) (fanout env o) w
        (rw (credit_if_needed-counted env p o w needed, credit-counted env p o w)
          (omega (arith, grown, called)))
        (fanout-grows (1 + credits_of m w) o)

  dispatch-credits_of :
      (event : EventMessage) (w : World)
      → w.breaker.state ≢ open_state
      → is_due_as m event ≡ true
      → 1 + credits_of m w ≤ credits_of m (dispatch env event w).1
  dispatch-credits_of (xp_awarded o) w up due =
      rw (dispatch-routed env (xp_awarded o)) (handle-credits_of o w due up)
  dispatch-credits_of (lesson_completed o) w up due = absurd cc
  dispatch-credits_of (review_completed o) w up due = absurd cc
  dispatch-credits_of (friend_added o) w up due = absurd cc
  dispatch-credits_of (ad_watched o) w up due = absurd cc
  dispatch-credits_of (subscription_changed o) w up due = absurd cc

  -- With a breaker that is not open, the handling of an event that is due calls xp/add with what it
  -- awards, and no handling takes such a call back.
  pub event-credits_of :
      (event : EventMessage) (w : World)
      → w.breaker.state ≢ open_state
      → count (is_due_as m) (event ∷ []) + credits_of m w ≤ credits_of m (dispatch env event w).1
  unfolding Preserves
  event-credits_of event w up = elim (Bool-cases (is_due_as m event)) [
    | inl due ↦ ground (arith, dispatch-credits_of event w up due, due)
    | inr rest ↦
        let kept =
          dispatch-Preserves env (AtLeast p env (credits_of m w))
            (AtLeast-Frame p env (credits_of m w)) event w (omega arith) in
        ground (arith, kept, rest)
  ]
