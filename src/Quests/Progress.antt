-- ===== src/Quests/Progress.antt =====
-- Which quests app/quests/evaluator.py bumps.
use lingo_async.Prelude.{
  String, ◌≡◌, refl, Bool, true, false, not, ◌&&◌, Option, none, some, List, [], ◌∷◌, arith, ◌+◌,
  ◌≤◌, count, sym, ap, ◌∙◌,
}
use lingo_async.Prelude.Int.{ℤ, pos, leb_ℤ}
use lingo_async.Python.Exn.{Result, ok, err}
use lingo_async.Python.Json.{Json, str, get, is_text}
use lingo_async.World.{Env, World, lift}
use lingo_async.World.Returns.{
  Returns, Returns-pure, Returns-bind, Returns-then, Returns-lift, Returns-if,
}
use lingo_async.World.Keeps.{counted, Keeps}
use lingo_async.World.Preserves.{Preserves}
use lingo_async.Client.{LingoCoreClient, new, list_quests, list_call, bump_progress}
use lingo_async.Client.Grows.{request-grows, new-grows}
use lingo_async.Quests.Keeps.{run_quests-Keeps}
use lingo_async.Quests.Calls.{
  is_bump, is_stray, is_stray-IsQuiet, bump_call-fits, is_at, advance_quests-counted,
}
use lingo_async.Contracts.Messages.{EventMessage}
use lingo_async.Quests.{
  QuestAction, event_unit_and_delta, run_quests, evaluate_quests_for, quests_of, required_key,
  progress_of, or_value, current_of, bump, advance_quest, advance_quests, with_action,
}

abbrev unit_of : Json → Result (Option Json)
unit_of quest = elim (progress_of quest) [ ok progress ↦ get "unit" progress | err e ↦ err e ]

abbrev reads : String → Result (Option Json) → Bool
reads s (ok v) = is_text s v
reads s (err _) = false

-- The quest is active and counts in this unit.
abbrev pub advances : String → Json → Bool
advances target quest = reads "active" (get "status" quest) && reads target (unit_of quest)

pub record IsBumpOf (target : String) (step : ℤ) (quest : Json) (a : QuestAction) : Type 0 where
  pub id : required_key "id" quest ≡ ok a.quest_id
  pub unit : a.unit ≡ target
  pub delta : a.delta ≡ step

-- The actions are bumps of just the quests that advance, in the order of the list.
pub data AreBumpsOf (target : String) (step : ℤ) : List Json → List QuestAction → Type 0 where
  end : AreBumpsOf target step [] []
  skip :
      {quest : Json} {quests : List Json} {actions : List QuestAction}
      → advances target quest ≡ false
      → AreBumpsOf target step quests actions
      → AreBumpsOf target step (quest ∷ quests) actions
  bumped :
      {quest : Json} {quests : List Json} {a : QuestAction} {actions : List QuestAction}
      → advances target quest ≡ true
      → IsBumpOf target step quest a
      → AreBumpsOf target step quests actions
      → AreBumpsOf target step (quest ∷ quests) (a ∷ actions)

module _ (env : Env) (c : LingoCoreClient) (user target : String) (delta : ℤ) where
  bump-IsBumpOf :
      (quest progress status : Json)
      → Returns (IsBumpOf target delta quest) (bump env c user target delta quest progress status)
  unfolding bump
  bump-IsBumpOf quest progress status = Returns-lift P (required_key "id" quest) _ λ id known.
      Returns-bind P (lift (current_of progress)) _ λ before.
        Returns-bind P (bump_progress env c id user delta) _ λ updated.
          Returns-bind P (lift (progress_of updated)) _ λ new_progress.
            Returns-bind P (lift (current_of new_progress)) _ λ after.
              Returns-bind P (lift (get "status" updated)) _
                λ status'. Returns-pure P _ (record { id = known; unit = refl; delta = refl })
    where
      P : QuestAction → Type 0
      P = IsBumpOf target delta quest

  -- One pass of the loop.
  abbrev Passes : Json → Option QuestAction → Type 0
  Passes quest none = advances target quest ≡ false
  Passes quest (some a) = (advances target quest ≡ true) × IsBumpOf target delta quest a

  advance_quest-Passes :
      (quest : Json) → Returns (Passes quest) (advance_quest env c user target delta quest)
  unfolding advance_quest
  advance_quest-Passes quest =
      Returns-lift (Passes quest) (get "status" quest) _ λ status status_known.
        Returns-if (Passes quest) (not (is_text "active" status)) _ _
          (λ t. Returns-pure (Passes quest) none (ground arith))
          (λ active. Returns-lift (Passes quest) (progress_of quest) _ λ progress progress_known.
            Returns-lift (Passes quest) (get "unit" progress) _ λ unit unit_known.
              Returns-if (Passes quest) (not (is_text target unit)) _ _
                (λ t. Returns-pure (Passes quest) none (ground arith))
                (λ same.
                  Returns-then (Passes quest) (IsBumpOf target delta quest)
                    (bump env c user target delta quest progress (or_value status (str "active"))) _
                    (bump-IsBumpOf quest progress (or_value status (str "active")))
                    λ action is_bump.
                      Returns-pure (Passes quest) (some action) (ground arith, is_bump)))

  advance_quests-AreBumpsOf :
      (quests : List Json)
      → Returns (AreBumpsOf target delta quests) (advance_quests env c user target delta quests)
  unfolding advance_quests
  advance_quests-AreBumpsOf [] = Returns-pure (AreBumpsOf target delta []) [] end
  advance_quests-AreBumpsOf (quest ∷ quests) =
      Returns-then P (Passes quest) (advance_quest env c user target delta quest) _
        (advance_quest-Passes quest)
        λ action passes.
          Returns-then P (AreBumpsOf target delta quests)
            (advance_quests env c user target delta quests) _ (advance_quests-AreBumpsOf quests)
            λ actions are.
              Returns-pure P (with_action action actions) (one_more action actions passes are)
    where
      P : List QuestAction → Type 0
      P = AreBumpsOf target delta (quest ∷ quests)

      one_more :
          (action : Option QuestAction) (actions : List QuestAction)
          → Passes quest action
          → AreBumpsOf target delta quests actions
          → P (with_action action actions)
      one_more none actions passes are = skip passes are
      one_more (some a) actions passes are = bumped passes.0 passes.1 are

-- What has been sent for the actions: for each URL, at least as many bumps by the delta as there
-- are actions of quests with that URL, and no bump by another delta or for another user.
pub record AreSent (env : Env) (user target : String) (delta : ℤ) (before after : World)
    (actions : List QuestAction) : Type 0 where
  pub sends :
      (url : String)
      → count (is_at env (new env before).0 user target delta url) actions
          + counted (is_bump url user delta) before
        ≤ counted (is_bump url user delta) after
  pub no_stray : counted (is_stray user delta) after ≡ counted (is_stray user delta) before

module _ (env : Env) (user : String) (event : EventMessage) (target : String) (delta : ℤ)
    (w : World) (e : event_unit_and_delta event ≡ some (target, delta))
    (d : leb_ℤ delta (pos 0) ≡ false) (mounted : w.quests_surface_unmounted ≡ false) where
  evaluate-run : evaluate_quests_for env user event w ≡ run_quests env user target delta w
  unfolding evaluate_quests_for
  evaluate-run = ground arith

  evaluate-no_stray :
      counted (is_stray user delta) (evaluate_quests_for env user event w).1
      ≡ counted (is_stray user delta) w
  unfolding Keeps
  evaluate-no_stray = rw (evaluate-run) (
      run_quests-Keeps (is_stray user delta) (is_stray-IsQuiet user delta) env refl (λ _ _. refl)
        user target delta (λ c q. bump_call-fits env user delta c q) w)

  evaluate-sends :
      (v : Json) (quests : List Json) (actions : List QuestAction) (url : String)
      → (list_quests env (new env w).0 user (new env w).1).0 ≡ ok v
      → quests_of v ≡ ok quests
      → (evaluate_quests_for env user event w).0 ≡ ok actions
      → count (is_at env (new env w).0 user target delta url) actions
          + counted (is_bump url user delta) w
        ≤ counted (is_bump url user delta) (evaluate_quests_for env user event w).1
  unfolding run_quests list_quests Preserves
  evaluate-sends v quests actions url listed known result =
      let p = is_bump url user delta in
      let (c, w1) = new env w in
      let w2 = (list_quests env c user w1).1 in
      let grown : counted p w ≤ counted p w2 =
        request-grows p env (counted p w) "list_quests" (list_call c user) w1
          (new-grows p env (counted p w) w (omega arith)) in
      let run : evaluate_quests_for env user event w
          ≡ advance_quests env c user target delta quests w2 =
        evaluate-run ∙ ground arith in
      let sent_all =
        advance_quests-counted env c user target delta url quests w2 actions
          (sym (ap (λ o. o.0) run) ∙ result) in
      rw (run) (omega (arith, sent_all, grown))

-- If the latch is not set, the event has a unit and a positive delta, the call of the list succeeds
-- and `evaluate_quests_for` returns actions, they are bumps of just the listed quests that are
-- active and count in the event's unit, in their order; for every URL, at least as many calls that
-- add the event's delta to the user's progress were sent there as there are bumps of quests with
-- that URL, and no call was sent that adds another delta or for another user.
pub evaluate-AreBumpsOf :
    (env : Env) (user : String) (event : EventMessage) (target : String) (delta : ℤ) (w : World)
    (v : Json) (quests : List Json) (actions : List QuestAction)
    → event_unit_and_delta event ≡ some (target, delta)
    → leb_ℤ delta (pos 0) ≡ false
    → w.quests_surface_unmounted ≡ false
    → (list_quests env (new env w).0 user (new env w).1).0 ≡ ok v
    → quests_of v ≡ ok quests
    → (evaluate_quests_for env user event w).0 ≡ ok actions
    → AreBumpsOf target delta quests actions
      × AreSent env user target delta w (evaluate_quests_for env user event w).1 actions
unfolding evaluate_quests_for run_quests Returns
evaluate-AreBumpsOf env user event target delta w v quests actions e d l listed known result = (
  advance_quests-AreBumpsOf env (new env w).0 user target delta quests
      (list_quests env (new env w).0 user (new env w).1).1 actions (ground arith),
  record {
    sends = λ url.
        evaluate-sends env user event target delta w e d l v quests actions url listed known result;
    no_stray = evaluate-no_stray env user event target delta w e d l;
  },
)
