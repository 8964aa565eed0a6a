-- ===== src/Quests/Keeps.antt =====
-- What `evaluate_quests_for` leaves uncounted: effects that are not its calls of lingo-core.
use lingo_async.Prelude.{
  String, ◌≡◌, ◌∙◌, refl, inl, inr, Bool, false, Option, none, some, List, [], ◌∷◌, Bool-cases, not,
}
use lingo_async.Prelude.Int.{ℤ, pos, leb_ℤ}
use lingo_async.Python.Exn.{ok, Result-cases}
use lingo_async.Python.Json.{Json, str, get, is_text}
use lingo_async.World.{Env, M, Effect, sent, read_ssm, lift, ◌>>=◌}
use lingo_async.World.Keeps.{
  IsQuiet, counted, Keeps, Keeps-lift, Keeps-pure, Keeps-bind, Keeps-if, counted_if,
}
use lingo_async.Token.{ssm_parameter_name}
use lingo_async.Client.{LingoCoreClient, list_call, bump_call, new, list_quests, bump_progress}
use lingo_async.Client.Keeps.{request-Keeps, new-Keeps}
use lingo_async.Contracts.Messages.{EventMessage}
use lingo_async.Quests.{
  QuestAction, quests_of, progress_of, current_of, required_key, or_value, bump, advance_quest,
  advance_quests, is_not_found, with_action, run_quests, evaluate_pair, evaluate_quests_for,
  event_unit_and_delta,
}

module _ (p : Effect → Bool) (quiet : IsQuiet p) (env : Env)
    (ssm : p (read_ssm ssm_parameter_name) ≡ false)
    (no_list : (c : LingoCoreClient) (u : String) → p (sent (list_call c u)) ≡ false) where
  list_quests-Keeps : (c : LingoCoreClient) (u : String) → Keeps p (list_quests env c u)
  unfolding list_quests
  list_quests-Keeps c u = request-Keeps p quiet env (list_call c u) (no_list c u) "list_quests"

  -- What is counted is no bump of this user's quests by this delta.
  abbrev pub NoBump : String → ℤ → Type 0
  NoBump u d = (c : LingoCoreClient) (q : Json) → p (sent (bump_call env c q u d)) ≡ false

  module _ (c : LingoCoreClient) (u target : String) (delta : ℤ) (no_bump : NoBump u delta) where
    bump_progress-Keeps : (q : Json) → Keeps p (bump_progress env c q u delta)
    unfolding bump_progress
    bump_progress-Keeps q =
        request-Keeps p quiet env (bump_call env c q u delta) (no_bump c q) "bump_progress"

    bump-Keeps :
        (quest progress status : Json) → Keeps p (bump env c u target delta quest progress status)
    unfolding bump
    bump-Keeps quest progress status =
        Keeps-bind p _ _ (Keeps-lift p (required_key "id" quest)) λ id.
          Keeps-bind p _ _ (Keeps-lift p (current_of progress)) λ before.
            Keeps-bind p _ _ (bump_progress-Keeps id) λ updated.
              Keeps-bind p _ _ (Keeps-lift p (progress_of updated)) λ new_progress.
                Keeps-bind p _ _ (Keeps-lift p (current_of new_progress)) λ after.
                  Keeps-bind p _ _ (Keeps-lift p (get "status" updated)) λ status. Keeps-pure p _

    advance_quest-Keeps : (quest : Json) → Keeps p (advance_quest env c u target delta quest)
    unfolding advance_quest
    advance_quest-Keeps quest = Keeps-bind p _ _ (Keeps-lift p (get "status" quest)) λ status.
        Keeps-if p (not (is_text "active" status)) _ _ (Keeps-pure p none) (
          Keeps-bind p _ _ (Keeps-lift p (progress_of quest)) λ progress.
            Keeps-bind p _ _ (Keeps-lift p (get "unit" progress)) λ unit.
              Keeps-if p (not (is_text target unit)) _ _ (Keeps-pure p none) (
                Keeps-bind p _ _ (bump-Keeps quest progress (or_value status (str "active")))
                  λ action. Keeps-pure p (some action)))

    advance_quests-Keeps :
        (quests : List Json) → Keeps p (advance_quests env c u target delta quests)
    unfolding advance_quests
    advance_quests-Keeps [] = Keeps-pure p []
    advance_quests-Keeps (quest ∷ quests) = Keeps-bind p _ _ (advance_quest-Keeps quest) λ action.
        Keeps-bind p _ _ (advance_quests-Keeps quests)
          λ actions. Keeps-pure p (with_action action actions)

  abbrev advance_listed : LingoCoreClient → String → String → ℤ → Json → M (List QuestAction)
  advance_listed c u target delta v = do
    quests ← lift (quests_of v)
    advance_quests env c u target delta quests

  advance_listed-Keeps :
      (c : LingoCoreClient) (u target : String) (delta : ℤ) (v : Json)
      → NoBump u delta
      → Keeps p (advance_listed c u target delta v)
  advance_listed-Keeps c u target delta v no_bump =
      Keeps-bind p _ _ (Keeps-lift p (quests_of v))
        (λ quests. advance_quests-Keeps c u target delta no_bump quests)

  pub run_quests-Keeps :
      (u target : String) (delta : ℤ) → NoBump u delta → Keeps p (run_quests env u target delta)
  unfolding run_quests Keeps
  run_quests-Keeps u target delta no_bump w =
      let c = (new env w).0 in
      let w1 = (new env w).1 in
      let w2 = (list_quests env c u w1).1 in
      let before = list_quests-Keeps c u w1 ∙ new-Keeps p env w ssm in
      elim (Result-cases (list_quests env c u w1).0) [
        | inl (v, e) ↦
            rw (e, run_quests) (advance_listed-Keeps c u target delta v no_bump w2 ∙ before)
        | inr (x, e) ↦ elim (Bool-cases (is_not_found x)) [
          | inl t ↦ rw (e, run_quests) (rw (t, run_quests) before)
          | inr t ↦ rw (e, run_quests) (rw (t, run_quests) before)
        ]
      ]

  evaluate_pair-Keeps :
      (u : String) (pair : Option (String × ℤ))
      → ((d : ℤ) → NoBump u d)
      → Keeps p (evaluate_pair env u pair)
  unfolding Keeps
  evaluate_pair-Keeps u none no_bump w = refl
  evaluate_pair-Keeps u (some (target, delta)) no_bump w =
      counted_if p (counted p w) (leb_ℤ delta (pos 0)) (ok [], w) _ refl
        (counted_if p (counted p w) w.quests_surface_unmounted (ok [], w) _ refl
          (run_quests-Keeps u target delta (no_bump delta) w))

  pub evaluate_quests_for-Keeps :
      ((u : String) (d : ℤ) → NoBump u d)
      → (u : String) (event : EventMessage) → Keeps p (evaluate_quests_for env u event)
  unfolding evaluate_quests_for
  evaluate_quests_for-Keeps no_bump u event =
      evaluate_pair-Keeps u (event_unit_and_delta event) (no_bump u)
