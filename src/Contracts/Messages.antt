-- ===== src/Contracts/Messages.antt =====
-- The message classes of app/contracts/messages.py and their union, `EventMessage`. The fields
-- `type` and `version` have one value each, so they are no fields here.
use lingo_async.Prelude.{suc, ◌≤◌, String, Bool, Option}
use lingo_async.Prelude.Int.{ℤ, pos, negsuc, ◌≤ℤ◌}
use lingo_async.Python.Json.{Float, ratio, nan, infinite}
use lingo_async.World.{DateTime}

pub data Source : Type 0 where
  lesson review manual quest streak : Source

pub data Modality : Type 0 where
  recognition production : Modality

pub data Rating : Type 0 where
  again hard good easy : Rating

pub data Tier : Type 0 where
  free supporter patron lifetime : Tier

pub data Change : Type 0 where
  new upgraded downgraded churned : Change

-- A `datetime` as pydantic parses it, with its offset from UTC in seconds if it has one.
pub record Stamp : Type 0 where
  pub local : DateTime
  pub offset : Option ℤ

pub record XpAwarded : Type 0 where
  pub user_id : String
  pub amount : ℤ
  pub source : Source
  pub learning_language_id : Option String
  pub leaderboard_opt_in : Bool

pub record LessonCompleted : Type 0 where
  pub user_id : String
  pub lesson_id : String
  pub score : Float
  pub perfect : Bool
  pub attempted_at : Stamp
  pub is_test_out : Bool

pub record ReviewCompleted : Type 0 where
  pub user_id : String
  pub card_id : String
  pub modality : Modality
  pub rating : Rating
  pub count : ℤ

pub record FriendAdded : Type 0 where
  pub user_id : String
  pub friend_id : String

pub record AdWatched : Type 0 where
  pub user_id : String
  pub placement : String
  pub idempotency_key : String
  pub lingots_awarded : ℤ
  pub occurred_at : Stamp

pub record SubscriptionChanged : Type 0 where
  pub user_id : String
  pub tier : Tier
  pub event : Change

pub data EventMessage : Type 0 where
  xp_awarded : XpAwarded → EventMessage
  lesson_completed : LessonCompleted → EventMessage
  review_completed : ReviewCompleted → EventMessage
  friend_added : FriendAdded → EventMessage
  ad_watched : AdWatched → EventMessage
  subscription_changed : SubscriptionChanged → EventMessage

-- `event.type`
abbrev pub type_of : EventMessage → String
type_of (xp_awarded _) = "xp_awarded"
type_of (lesson_completed _) = "lesson_completed"
type_of (review_completed _) = "review_completed"
type_of (friend_added _) = "friend_added"
type_of (ad_watched _) = "ad_watched"
type_of (subscription_changed _) = "subscription_changed"

-- `event.user_id`
abbrev pub user_of : EventMessage → String
user_of (xp_awarded m) = m.user_id
user_of (lesson_completed m) = m.user_id
user_of (review_completed m) = m.user_id
user_of (friend_added m) = m.user_id
user_of (ad_watched m) = m.user_id
user_of (subscription_changed m) = m.user_id

-- 0.0 <= x <= 1.0; the comparisons with nan are false.
abbrev pub InUnit : Float → Type 0
InUnit (ratio (pos n) d) = n ≤ suc d
InUnit (ratio (negsuc _) d) = ⊥
InUnit nan = ⊥
InUnit infinite = ⊥

-- What the `Field` constraints promise of a message.
abbrev pub InRange : EventMessage → Type 0
InRange (xp_awarded m) = pos 0 ≤ℤ m.amount
InRange (lesson_completed m) = InUnit m.score
InRange (review_completed m) = pos 1 ≤ℤ m.count
InRange (friend_added _) = Unit
InRange (ad_watched m) = pos 0 ≤ℤ m.lingots_awarded
InRange (subscription_changed _) = Unit
