-- ===== src/Quests.antt =====
-- app/quests/evaluator.py
pub mod Frame
pub mod Answers
pub mod Health
pub mod Keeps
pub mod Calls
pub mod Latch
pub mod Progress
use lingo_async.Prelude.{
  String, Bool, true, false, not, Option, none, some, List, [], ◌∷◌, eqb, if◌then◌else◌,
}
use lingo_async.Prelude.Int.{ℤ, pos, leb_ℤ}
use lingo_async.Python.Exn.{Exn, Result, ok, err, http_status, key_error, attribute_error}
use lingo_async.Python.Json.{
  Json, int, str, arr, dict, nil, end, get, lookup, or_else, iterate, is_text, to_int,
}
use lingo_async.World.{Env, M, pure, lift, ◌>>=◌}
use lingo_async.Client.{LingoCoreClient, new, list_quests, bump_progress}
use lingo_async.Contracts.Messages.{
  EventMessage, xp_awarded, lesson_completed, review_completed, friend_added, ad_watched,
  subscription_changed,
}

pub record QuestAction : Type 0 where
  pub quest_id : Json
  pub unit : String
  pub delta : ℤ
  pub progress_before : ℤ
  pub progress_after : ℤ
  pub status_before : Json
  pub status_after : Json

-- `_event_unit_and_delta`
unfoldable pub event_unit_and_delta : EventMessage → Option (String × ℤ)
event_unit_and_delta (xp_awarded m) = some ("XP", m.amount)
event_unit_and_delta (lesson_completed m) = if m.is_test_out then none else some ("lessons", pos 1)
event_unit_and_delta (review_completed m) = some ("cards", m.count)
event_unit_and_delta (friend_added _) = some ("friends", pos 1)
event_unit_and_delta (ad_watched _) = none
event_unit_and_delta (subscription_changed _) = none

-- `d[k]`
abbrev required_key : String → Json → Result Json
required_key k (dict fs) = elim (lookup k fs) [ none ↦ err (key_error k) | some v ↦ ok v ]
required_key k _ = err attribute_error

abbrev or_value : Option Json → Json → Json
or_value none d = d
or_value (some v) _ = v

-- int(progress.get("current") or 0)
abbrev current_of : Json → Result ℤ
current_of progress = elim (get "current" progress) [
  | ok found ↦ to_int (or_else found (int (pos 0)))
  | err e ↦ err e
]

-- quest.get("progress") or {}
abbrev progress_of : Json → Result Json
progress_of quest = elim (get "progress" quest) [
  | ok found ↦ ok (or_else found (dict end))
  | err e ↦ err e
]

-- listed.get("items", []) or []
unfoldable pub quests_of : Json → Result (List Json)
quests_of listed = elim (get "items" listed) [
  | ok found ↦ iterate (or_else found (arr nil))
  | err e ↦ err e
]

abbrev pub with_action : Option QuestAction → List QuestAction → List QuestAction
with_action none actions = actions
with_action (some a) actions = a ∷ actions

module _ (env : Env) (client : LingoCoreClient) (user_id target_unit : String) (delta : ℤ) where
  -- The part of the loop's body after its two tests.
  unfoldable pub bump : Json → Json → Json → M QuestAction
  bump quest progress status_before = do
    quest_id ← lift (required_key "id" quest)
    before ← lift (current_of progress)
    updated ← bump_progress env client quest_id user_id delta
    new_progress ← lift (progress_of updated)
    after ← lift (current_of new_progress)
    status ← lift (get "status" updated)
    pure (record {
      quest_id = quest_id;
      unit = target_unit;
      delta = delta;
      progress_before = before;
      progress_after = after;
      status_before = status_before;
      status_after = or_value status status_before;
    })

  -- The loop's body; none stands for `continue`.
  unfoldable pub advance_quest : Json → M (Option QuestAction)
  advance_quest quest = do
    status ← lift (get "status" quest)
    if not (is_text "active" status) then pure none else do
      progress ← lift (progress_of quest)
      unit ← lift (get "unit" progress)
      if not (is_text target_unit unit)
          then pure none
          else do action ← bump quest progress (or_value status (str "active")); pure (some action)

  unfoldable pub advance_quests : List Json → M (List QuestAction)
  advance_quests [] = pure []
  advance_quests (quest ∷ quests) = do
    action ← advance_quest quest
    actions ← advance_quests quests
    pure (with_action action actions)

abbrev pub is_not_found : Exn → Bool
is_not_found (http_status code) = eqb code 404
is_not_found _ = false

-- `evaluate_quests_for` after its guards.
unfoldable pub run_quests : Env → String → String → ℤ → M (List QuestAction)
run_quests env user_id unit delta w =
    let (client, w1) = new env w in
    let (r, w2) = list_quests env client user_id w1 in
    elim r [
      | ok listed ↦
          (do quests ← lift (quests_of listed); advance_quests env client user_id unit delta quests)
            w2
      | err e ↦
          if is_not_found e
          then (ok [], record w2 { quests_surface_unmounted = true })
          else (err e, w2)
    ]

abbrev pub evaluate_pair : Env → String → Option (String × ℤ) → M (List QuestAction)
evaluate_pair env user_id none w = (ok [], w)
evaluate_pair env user_id (some (unit, delta)) w =
    if leb_ℤ delta (pos 0)
    then (ok [], w)
    else if w.quests_surface_unmounted
    then (ok [], w)
    else run_quests env user_id unit delta w

unfoldable pub evaluate_quests_for : Env → String → EventMessage → M (List QuestAction)
evaluate_quests_for env user_id event = evaluate_pair env user_id (event_unit_and_delta event)
