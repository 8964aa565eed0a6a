-- ===== src/Contracts/Wire.antt =====
-- What a producer of the messages of app/contracts/messages.py puts into a JSON object.
pub mod Names
pub mod Reading
pub mod RoundTrip
use lingo_async.Prelude.{
  suc, ◌≤◌, le→leb, String, ◌≡◌, ◌⊎◌, inl, inr, refl, Bool, true, false, Option, none, some, arith,
}
use lingo_async.Prelude.Int.{ℤ, pos, negsuc, ◌≤ℤ◌, leb_ℤ}
use lingo_async.Python.Json.{
  Json, Fields, Float, ratio, nan, infinite, null, bool, int, float, str, dict, lookup,
}
use lingo_async.Contracts.Messages.{
  Source, lesson, review, manual, quest, streak, Modality, recognition, production, Rating, again,
  hard, good, easy, Tier, free, supporter, patron, lifetime, Change, new, upgraded, downgraded,
  churned, Stamp, XpAwarded, LessonCompleted, ReviewCompleted, FriendAdded, AdWatched,
  SubscriptionChanged, EventMessage, xp_awarded, lesson_completed, review_completed, friend_added,
  ad_watched, subscription_changed, InRange, InUnit, type_of,
}
use lingo_async.Contracts.Literals.{
  ◌>>=◌, check, required, with_default, nullable, text_of, source_named, modality_named,
  rating_named, tier_named, change_named, in_unit,
}
use lingo_async.Contracts.Validate.{
  Coercions, version, validate_xp_awarded, validate_lesson_completed, validate_review_completed,
  validate_friend_added, validate_ad_watched, validate_subscription_changed, validate_tagged,
  validate,
}

abbrev pub source_name : Source → String
source_name lesson = "lesson"
source_name review = "review"
source_name manual = "manual"
source_name quest = "quest"
source_name streak = "streak"

abbrev pub modality_name : Modality → String
modality_name recognition = "recognition"
modality_name production = "production"

abbrev pub rating_name : Rating → String
rating_name again = "again"
rating_name hard = "hard"
rating_name good = "good"
rating_name easy = "easy"

abbrev pub tier_name : Tier → String
tier_name free = "free"
tier_name supporter = "supporter"
tier_name patron = "patron"
tier_name lifetime = "lifetime"

abbrev pub change_name : Change → String
change_name new = "new"
change_name upgraded = "upgraded"
change_name downgraded = "downgraded"
change_name churned = "churned"

abbrev pub nullable_text : Option String → Json
nullable_text none = null
nullable_text (some s) = str s

-- The JSON text of a `datetime`, as the producer writes it.
module _ (time : Stamp → Json) (fs : Fields) where
  -- The object has the value under the key.
  abbrev Has : String → Json → Type 0
  Has k v = lookup k fs ≡ some v

  -- The object has the value under the key, or the value is the default and the key is missing.
  abbrev HasOr : {A : Type 0} → String → (A → Json) → A → A → Type 0
  HasOr k code d x = Has k (code x) ⊎ ((lookup k fs ≡ none) × (d ≡ x))

  pub record HasXp (m : XpAwarded) : Type 0 where
    pub user_id : Has "user_id" (str m.user_id)
    pub amount : Has "amount" (int m.amount)
    pub source : Has "source" (str (source_name m.source))
    pub language : HasOr "learning_language_id" nullable_text none m.learning_language_id
    pub opt_in : HasOr "leaderboard_opt_in" bool true m.leaderboard_opt_in

  pub record HasLesson (m : LessonCompleted) : Type 0 where
    pub user_id : Has "user_id" (str m.user_id)
    pub lesson_id : Has "lesson_id" (str m.lesson_id)
    pub score : Has "score" (float m.score)
    pub perfect : Has "perfect" (bool m.perfect)
    pub attempted_at : Has "attempted_at" (time m.attempted_at)
    pub is_test_out : HasOr "is_test_out" bool false m.is_test_out

  pub record HasReview (m : ReviewCompleted) : Type 0 where
    pub user_id : Has "user_id" (str m.user_id)
    pub card_id : Has "card_id" (str m.card_id)
    pub modality : Has "modality" (str (modality_name m.modality))
    pub rating : Has "rating" (str (rating_name m.rating))
    pub count : HasOr "count" int (pos 1) m.count

  pub record HasFriend (m : FriendAdded) : Type 0 where
    pub user_id : Has "user_id" (str m.user_id)
    pub friend_id : Has "friend_id" (str m.friend_id)

  pub record HasAd (m : AdWatched) : Type 0 where
    pub user_id : Has "user_id" (str m.user_id)
    pub placement : Has "placement" (str m.placement)
    pub idempotency_key : Has "idempotency_key" (str m.idempotency_key)
    pub lingots_awarded : Has "lingots_awarded" (int m.lingots_awarded)
    pub occurred_at : Has "occurred_at" (time m.occurred_at)

  pub record HasSubscription (m : SubscriptionChanged) : Type 0 where
    pub user_id : Has "user_id" (str m.user_id)
    pub tier : Has "tier" (str (tier_name m.tier))
    pub event : Has "event" (str (change_name m.event))

  abbrev pub HasFields : EventMessage → Type 0
  HasFields (xp_awarded m) = HasXp m
  HasFields (lesson_completed m) = HasLesson m
  HasFields (review_completed m) = HasReview m
  HasFields (friend_added m) = HasFriend m
  HasFields (ad_watched m) = HasAd m
  HasFields (subscription_changed m) = HasSubscription m

  -- The object carries the message: its tag, its version or none, and its fields, where a field
  -- that has its default may be missing. The order of the fields is free, and there may be more.
  pub record Carries (m : EventMessage) : Type 0 where
    pub tag : Has "type" (str (type_of m))
    pub version : HasOr "version" int (pos 1) (pos 1)
    pub fields : HasFields m

module _ (time : Stamp → Json) where
  abbrev ReadsStamp : Coercions → EventMessage → Type 0
  ReadsStamp c (lesson_completed m) = c.to_stamp (time m.attempted_at) ≡ some m.attempted_at
  ReadsStamp c (ad_watched m) = c.to_stamp (time m.occurred_at) ≡ some m.occurred_at
  ReadsStamp c _ = Unit

  -- Documented behaviour of pydantic: a value that has the type of the field is taken as it is, and
  -- the `datetime` of the message is read back from the text the producer writes for it.
  pub record Reads (c : Coercions) (m : EventMessage) : Type 0 where
    pub to_str-str : (s : String) → c.to_str (str s) ≡ some s
    pub to_int-int : (n : ℤ) → c.to_int (int n) ≡ some n
    pub to_float-float : (x : Float) → c.to_float (float x) ≡ some x
    pub to_bool-bool : (b : Bool) → c.to_bool (bool b) ≡ some b
    pub is_literal_int-int : c.is_literal_int (pos 1) (int (pos 1)) ≡ true
    pub to_stamp-time : ReadsStamp c m
