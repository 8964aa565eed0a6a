-- ===== src/Handlers.antt =====
-- app/handlers/*.py, and `_dispatch` with its table in app/handler.py.
pub mod Credit
pub mod Owed
pub mod Fanout
pub mod Frame
pub mod Health
pub mod Outage
use lingo_async.Prelude.{
  String, ◌<>◌, Bool, true, false, not, ◌&&◌, Option, none, some, List, [], ◌∷◌, ◌++◌, map, ◌==◌,
  if◌then◌else◌,
}
use lingo_async.Prelude.Int.{ℤ, pos, ltb_ℤ}
use lingo_async.Python.Exn.{attribute_error, value_error}
use lingo_async.Python.Json.{Json, get}
use lingo_async.World.{Env, M, pure, raise, lift, ◌>>=◌}
use lingo_async.Client
use lingo_async.Client.{LingoCoreClient, add_xp}
use lingo_async.Contracts.Messages.{
  EventMessage, XpAwarded, AdWatched, Source, lesson, xp_awarded, ad_watched, type_of, user_of,
}
use lingo_async.Leaderboard.{BucketAction, update_leaderboard}
use lingo_async.Quests.{QuestAction, evaluate_quests_for}

pub data Action : Type 0 where
  user_xp : String → ℤ → Option Json → Source → Action
  bucket : BucketAction → Action
  skipped : String → Action
  quest_eval : QuestAction → Action
  ad : String → String → ℤ → Action

pub record Outcome : Type 0 where
  pub handler : String
  pub actions : List Action

abbrev pub quest_outcome : List QuestAction → Outcome
quest_outcome found = record { handler = "quest_eval"; actions = map quest_eval found }

-- The body that `handle` of friend_added.py, lesson_completed.py and review_completed.py share.
unfoldable pub handle_quest_event : Env → EventMessage → M (List Outcome)
handle_quest_event env event = do
  found ← evaluate_quests_for env (user_of event) event
  pure (quest_outcome found ∷ [])

-- `handle` of friend_added.py
abbrev handle_friend_added : Env → EventMessage → M (List Outcome)
handle_friend_added env event = handle_quest_event env event

-- `handle` of lesson_completed.py
abbrev handle_lesson_completed : Env → EventMessage → M (List Outcome)
handle_lesson_completed env event = handle_quest_event env event

-- `handle` of review_completed.py
abbrev handle_review_completed : Env → EventMessage → M (List Outcome)
handle_review_completed env event = handle_quest_event env event

-- `handle` of subscription_changed.py
abbrev handle_subscription_changed : EventMessage → M (List Outcome)
handle_subscription_changed event = pure []

-- event.source in _PRODUCER_ALREADY_CREDITED
abbrev pub already_credited : Source → Bool
already_credited lesson = true
already_credited _ = false

-- The test of the first `if` of xp_awarded.py.
abbrev pub needs_credit : XpAwarded → Bool
needs_credit m = not (already_credited m.source) && ltb_ℤ (pos 0) m.amount

abbrev pub xp_outcome : XpAwarded → Option Json → Outcome
xp_outcome m new_xp = record {
  handler = "user_xp";
  actions = user_xp m.user_id m.amount new_xp m.source ∷ [];
}

-- `LingoCoreClient().add_xp(...)` and what is read from its response.
unfoldable pub credit : Env → XpAwarded → M Outcome
credit env m w =
    let (client, w1) = Client.new env w in
    (do
      resp ← add_xp env client m.user_id m.amount m.learning_language_id m.leaderboard_opt_in
      new_xp ← lift (get "new_xp" resp)
      pure (xp_outcome m new_xp))
      w1

unfoldable pub credit_if_needed : Env → XpAwarded → M (List Outcome)
credit_if_needed env m = if needs_credit m then (do o ← credit env m; pure (o ∷ [])) else pure []

abbrev pub leaderboard_outcome : List Action → Outcome
leaderboard_outcome actions = record { handler = "leaderboard"; actions = actions }

unfoldable pub leaderboard_step : Env → XpAwarded → M Outcome
leaderboard_step env m =
    if env.settings.leaderboard_enabled
    then (do written ← update_leaderboard env m; pure (leaderboard_outcome (map bucket written)))
    else pure (leaderboard_outcome (skipped "leaderboard_disabled" ∷ []))

-- `handle` of xp_awarded.py
unfoldable pub handle_xp_awarded : Env → XpAwarded → M (List Outcome)
handle_xp_awarded env m = do
  credited ← credit_if_needed env m
  board ← leaderboard_step env m
  found ← evaluate_quests_for env m.user_id (xp_awarded m)
  pure (credited ++ board ∷ quest_outcome found ∷ [])

-- `handle` of ad_watched.py
abbrev pub handle_ad_watched : AdWatched → List Outcome
handle_ad_watched m =
    record { handler = "ad_watched"; actions = ad m.user_id m.placement m.lingots_awarded ∷ [] }
    ∷ []

-- The handler modules in the values of `_DISPATCH`.
pub data Module : Type 0 where
  xp_awarded_module lesson_completed_module review_completed_module friend_added_module : Module
  subscription_changed_module ad_watched_module : Module

-- `module.handle(event)`. The modules that evaluate quests read no more than `user_id`; a message
-- without the fields that the other two read raises an AttributeError.
unfoldable pub handle : Env → Module → EventMessage → M (List Outcome)
handle env xp_awarded_module (xp_awarded m) = handle_xp_awarded env m
handle env xp_awarded_module _ = raise attribute_error
handle env lesson_completed_module event = handle_lesson_completed env event
handle env review_completed_module event = handle_review_completed env event
handle env friend_added_module event = handle_friend_added env event
handle env subscription_changed_module event = handle_subscription_changed event
handle env ad_watched_module (ad_watched m) = pure (handle_ad_watched m)
handle env ad_watched_module _ = raise attribute_error

-- `_DISPATCH.get`
unfoldable pub registered : String → Option Module
registered type =
    if type == "xp_awarded"
    then some xp_awarded_module
    else if type == "lesson_completed"
    then some lesson_completed_module
    else if type == "review_completed"
    then some review_completed_module
    else if type == "friend_added"
    then some friend_added_module
    else if type == "subscription_changed"
    then some subscription_changed_module
    else if type == "ad_watched"
    then some ad_watched_module
    else none

abbrev dispatch_to : Env → EventMessage → Option Module → M (List Outcome)
dispatch_to env event none =
    raise (value_error ("no handler registered for type=" <> type_of event))
dispatch_to env event (some m) = handle env m event

-- `_dispatch`
unfoldable pub dispatch : Env → EventMessage → M (List Outcome)
dispatch env event = dispatch_to env event (registered (type_of event))
