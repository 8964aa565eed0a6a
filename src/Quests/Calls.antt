-- ===== src/Quests/Calls.antt =====
-- What app/quests/evaluator.py sends to lingo-core for the quests that it bumps.
use lingo_async.Prelude.{
  ℕ, ◌+◌, ◌≤◌, ◌<>◌, String, ◌≡◌, refl, inl, inr, Bool, true, false, not, ◌&&◌, ◌==◌, eq_refl,
  Option, none, some, List, [], ◌∷◌, arith, count, Bool-cases, if◌then◌else◌,
}
use lingo_async.Prelude.Int.{ℤ, same_number, same_number_refl}
use lingo_async.Python.Exn.{ok, err-ok}
use lingo_async.Python.Json.{Json, str, get, is_text}
use lingo_async.Breaker.{allow}
use lingo_async.World.{Env, World, Effect, Payload, user, progress, xp, HttpRequest, sent, pure}
use lingo_async.World.Keeps.{IsQuiet, counted}
use lingo_async.World.Gains.{Gains, Gains-pure, Gains-lift, Gains-bind, Gains-if, Gains-more}
use lingo_async.World.Preserves.{Preserves}
use lingo_async.Client.{LingoCoreClient, bump_call, bump_progress, request}
use lingo_async.Client.Keeps.{request-counted}
use lingo_async.Client.Grows.{request-grows}
use lingo_async.Quests.{
  QuestAction, required_key, progress_of, or_value, current_of, bump, advance_quest, advance_quests,
  with_action,
}

-- A request to add this much to the progress of a quest of this user.
abbrev pub adds : String → ℤ → Payload → Bool
adds user_id delta (progress u d) = (u == user_id) && same_number d delta
adds user_id delta (user _) = false
adds user_id delta (xp _ _ _ _) = false

-- A call to a URL that adds this much to the user's progress there.
abbrev pub is_bump : String → String → ℤ → Effect → Bool
is_bump url user_id delta (sent r) = (r.url == url) && adds user_id delta r.payload
is_bump url user_id delta _ = false

-- A call that adds something else, or for somebody else.
abbrev pub is_stray : String → ℤ → Effect → Bool
is_stray user_id delta (sent r) = elim r.payload [
  | progress u d ↦ not (adds user_id delta (progress u d))
  | user _ ↦ false
  | xp _ _ _ _ ↦ false
]
is_stray user_id delta _ = false

pub is_stray-IsQuiet : (user_id : String) (delta : ℤ) → IsQuiet (is_stray user_id delta)
is_stray-IsQuiet user_id delta = record {
  opening = refl;
  closing = refl;
  sleeping = λ _. refl;
  clock = refl;
}

-- A bump by the event's delta is no stray.
pub bump_call-fits :
    (env : Env) (user_id : String) (delta : ℤ) (c : LingoCoreClient) (q : Json)
    → is_stray user_id delta (sent (bump_call env c q user_id delta)) ≡ false
bump_call-fits env user_id delta c q = ground (arith, eq_refl user_id, same_number_refl delta)

-- Where the progress of a quest is posted to.
abbrev pub progress_url : Env → LingoCoreClient → Json → String
progress_url env c quest_id =
    c.base <> ("/api/core/v1/quests/_internal/" <> (env.show quest_id <> "/progress"))

module _ (env : Env) (c : LingoCoreClient) (user_id target : String) (delta : ℤ)
    (url : String) where
  -- The action is of a quest with this URL.
  abbrev pub is_at : QuestAction → Bool
  is_at a = progress_url env c a.quest_id == url

  abbrev is_counted : Effect → Bool
  is_counted = is_bump url user_id delta

  abbrev worth : Json → ℕ
  worth quest_id = if progress_url env c quest_id == url then 1 else 0

  is_counted-IsQuiet : IsQuiet is_counted
  is_counted-IsQuiet = record { opening = refl; closing = refl; sleeping = λ _. refl; clock = refl }

  returns-allowed :
      (label : String) (req : HttpRequest) (w : World) (v : Json)
      → (request env label req w).0 ≡ ok v
      → (allow (env.monotonic w.trace) w.breaker).0 ≡ true
  unfolding request
  returns-allowed label req w v e = elim (Bool-cases (allow (env.monotonic w.trace) w.breaker).0) [
    | inl t ↦ t
    | inr f ↦ absurd (err-ok (rw (f, request) at e))
  ]

  bump_progress-Gains :
      (quest_id : Json)
      → Gains is_counted (λ _. worth quest_id) 0 (bump_progress env c quest_id user_id delta)
  unfolding Gains bump_progress Preserves
  bump_progress-Gains quest_id w v e =
      let req = bump_call env c quest_id user_id delta in
      elim (Bool-cases (progress_url env c quest_id == url)) [
        | inl at_url ↦
            let more =
              request-counted is_counted is_counted-IsQuiet env req
                (ground (arith, at_url, eq_refl user_id, same_number_refl delta)) "bump_progress" w
                (returns-allowed "bump_progress" req w v e) in
            rw (at_url) (omega (arith, more.0))
        | inr elsewhere ↦
            let grown =
              request-grows is_counted env (counted is_counted w) "bump_progress" req w
                (omega arith) in
            rw (elsewhere) (omega (arith, grown))
      ]

  bump-Gains :
      (quest shown status : Json)
      → Gains is_counted
          (λ a. worth a.quest_id)
          0
          (bump env c user_id target delta quest shown status)
  unfolding bump
  bump-Gains quest shown status =
      Gains-bind is_counted g (λ _. 0) 0 _ _ (Gains-lift is_counted 0 (required_key "id" quest))
        λ id.
          Gains-bind is_counted g (λ _. 0) 0 _ _ (Gains-lift is_counted 0 (current_of shown))
            λ before.
              Gains-bind is_counted g (λ _. worth id) 0 _ _ (bump_progress-Gains id)
                λ updated.
                  Gains-bind is_counted g (λ _. worth id) (worth id) _ _
                    (Gains-lift is_counted (worth id) (progress_of updated))
                    λ new_progress.
                      Gains-bind is_counted g (λ _. worth id) (worth id) _ _
                        (Gains-lift is_counted (worth id) (current_of new_progress))
                        λ after.
                          Gains-bind is_counted g (λ _. worth id) (worth id) _ _
                            (Gains-lift is_counted (worth id) (get "status" updated))
                            λ status'. Gains-pure is_counted g (worth id) _ (omega arith)
    where
      g : QuestAction → ℕ
      g a = worth a.quest_id

  abbrev worth_of : Option QuestAction → ℕ
  worth_of none = 0
  worth_of (some a) = worth a.quest_id

  advance_quest-Gains :
      (quest : Json) → Gains is_counted worth_of 0 (advance_quest env c user_id target delta quest)
  unfolding advance_quest
  advance_quest-Gains quest =
      Gains-bind is_counted worth_of (λ _. 0) 0 _ _ (Gains-lift is_counted 0 (get "status" quest))
        λ status. Gains-if is_counted worth_of 0 (not (is_text "active" status)) _ _ none_gained (
          Gains-bind is_counted worth_of (λ _. 0) 0 _ _
            (Gains-lift is_counted 0 (progress_of quest))
            λ shown.
              Gains-bind is_counted worth_of (λ _. 0) 0 _ _
                (Gains-lift is_counted 0 (get "unit" shown))
                λ unit. Gains-if is_counted worth_of 0 (not (is_text target unit)) _ _ none_gained (
                  Gains-bind is_counted worth_of (λ a. worth a.quest_id) 0
                    (bump env c user_id target delta quest shown (or_value status (str "active")))
                    (λ action. pure (some action))
                    (bump-Gains quest shown (or_value status (str "active")))
                    λ a. Gains-pure is_counted worth_of (worth a.quest_id) (some a) (omega arith)))
    where
      none_gained : Gains is_counted worth_of 0 (pure none)
      none_gained = Gains-pure is_counted worth_of 0 none (omega arith)

  worth-action :
      (action : Option QuestAction) (actions : List QuestAction)
      → count is_at (with_action action actions) ≤ worth_of action + count is_at actions
  worth-action none actions = omega arith
  worth-action (some a) actions = ground arith

  advance_quests-Gains :
      (quests : List Json)
      → Gains is_counted (count is_at) 0 (advance_quests env c user_id target delta quests)
  unfolding advance_quests
  advance_quests-Gains [] = Gains-pure is_counted (count is_at) 0 [] (omega arith)
  advance_quests-Gains (quest ∷ quests) =
      Gains-bind is_counted (count is_at) worth_of 0
        (advance_quest env c user_id target delta quest) _ (advance_quest-Gains quest)
        λ action.
          Gains-bind is_counted (count is_at) (λ actions. worth_of action + count is_at actions)
            (worth_of action) (advance_quests env c user_id target delta quests) _
            (Gains-more is_counted (count is_at) (worth_of action) _ (advance_quests-Gains quests))
            λ actions.
              Gains-pure is_counted (count is_at) (worth_of action + count is_at actions)
                (with_action action actions) (worth-action action actions)

  -- Each action has been sent to its quest's URL, with the delta.
  pub advance_quests-counted :
      (quests : List Json) (w : World) (actions : List QuestAction)
      → (advance_quests env c user_id target delta quests w).0 ≡ ok actions
      → count is_at actions + counted is_counted w
        ≤ counted is_counted (advance_quests env c user_id target delta quests w).1
  unfolding Gains
  advance_quests-counted quests w actions e =
      let gained = advance_quests-Gains quests w actions e in omega (arith, gained)
