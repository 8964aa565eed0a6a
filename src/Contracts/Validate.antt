-- ===== src/Contracts/Validate.antt =====
-- How the `EventMessage` union of app/contracts/messages.py validates a decoded value: pydantic's
-- discriminated union on `type`, then the fields of the class. Pydantic's conversions of single
-- values are a parameter.
use lingo_async.Prelude.{String, Bool, true, false, Option, none, some, ◌==◌, if◌then◌else◌}
use lingo_async.Prelude.Int.{ℤ, pos, leb_ℤ}
use lingo_async.Python.Json.{Json, Fields, Float, dict, lookup}
use lingo_async.Contracts.Messages.{
  Stamp, EventMessage, xp_awarded, lesson_completed, review_completed, friend_added, ad_watched,
  subscription_changed,
}
use lingo_async.Contracts.Literals.{
  ◌>>=◌, ◌>>◌, check, required, with_default, nullable, text_of, source_named, modality_named,
  rating_named, tier_named, change_named, in_unit,
}

-- pydantic's lax conversions to `str`, `int`, `float`, `bool` and `datetime`, and its test for a
-- `Literal` integer; none is a validation error.
pub record Coercions : Type 0 where
  pub to_str : Json → Option String
  pub to_int : Json → Option ℤ
  pub to_float : Json → Option Float
  pub to_bool : Json → Option Bool
  pub to_stamp : Json → Option Stamp
  pub is_literal_int : ℤ → Json → Bool

module _ (c : Coercions) (fs : Fields) where
  open c use {to_str, to_int, to_float, to_bool, to_stamp, is_literal_int}

  -- `version: Literal[1] = 1`
  abbrev pub version : Option (Unit {0})
  version = with_default tt (λ v. check (is_literal_int (pos 1) v)) (lookup "version" fs)

  unfoldable pub validate_xp_awarded : Option EventMessage
  validate_xp_awarded = do
    version
    user_id ← required to_str (lookup "user_id" fs)
    amount ← required to_int (lookup "amount" fs)
    check (leb_ℤ (pos 0) amount)
    source ← required (text_of source_named) (lookup "source" fs)
    language ← with_default none (nullable to_str) (lookup "learning_language_id" fs)
    opt_in ← with_default true to_bool (lookup "leaderboard_opt_in" fs)
    some (
        xp_awarded (record {
          user_id = user_id;
          amount = amount;
          source = source;
          learning_language_id = language;
          leaderboard_opt_in = opt_in;
        }))

  unfoldable pub validate_lesson_completed : Option EventMessage
  validate_lesson_completed = do
    version
    user_id ← required to_str (lookup "user_id" fs)
    lesson_id ← required to_str (lookup "lesson_id" fs)
    score ← required to_float (lookup "score" fs)
    check (in_unit score)
    perfect ← required to_bool (lookup "perfect" fs)
    attempted_at ← required to_stamp (lookup "attempted_at" fs)
    is_test_out ← with_default false to_bool (lookup "is_test_out" fs)
    some (
        lesson_completed (record {
          user_id = user_id;
          lesson_id = lesson_id;
          score = score;
          perfect = perfect;
          attempted_at = attempted_at;
          is_test_out = is_test_out;
        }))

  unfoldable pub validate_review_completed : Option EventMessage
  validate_review_completed = do
    version
    user_id ← required to_str (lookup "user_id" fs)
    card_id ← required to_str (lookup "card_id" fs)
    modality ← required (text_of modality_named) (lookup "modality" fs)
    rating ← required (text_of rating_named) (lookup "rating" fs)
    count ← with_default (pos 1) to_int (lookup "count" fs)
    check (leb_ℤ (pos 1) count)
    some (
        review_completed (record {
          user_id = user_id;
          card_id = card_id;
          modality = modality;
          rating = rating;
          count = count;
        }))

  unfoldable pub validate_friend_added : Option EventMessage
  validate_friend_added = do
    version
    user_id ← required to_str (lookup "user_id" fs)
    friend_id ← required to_str (lookup "friend_id" fs)
    some (friend_added (record { user_id = user_id; friend_id = friend_id }))

  unfoldable pub validate_ad_watched : Option EventMessage
  validate_ad_watched = do
    version
    user_id ← required to_str (lookup "user_id" fs)
    placement ← required to_str (lookup "placement" fs)
    idempotency_key ← required to_str (lookup "idempotency_key" fs)
    lingots_awarded ← required to_int (lookup "lingots_awarded" fs)
    check (leb_ℤ (pos 0) lingots_awarded)
    occurred_at ← required to_stamp (lookup "occurred_at" fs)
    some (
        ad_watched (record {
          user_id = user_id;
          placement = placement;
          idempotency_key = idempotency_key;
          lingots_awarded = lingots_awarded;
          occurred_at = occurred_at;
        }))

  unfoldable pub validate_subscription_changed : Option EventMessage
  validate_subscription_changed = do
    version
    user_id ← required to_str (lookup "user_id" fs)
    tier ← required (text_of tier_named) (lookup "tier" fs)
    event ← required (text_of change_named) (lookup "event" fs)
    some (subscription_changed (record { user_id = user_id; tier = tier; event = event }))

  -- The class whose `type` literal is the tag.
  unfoldable pub validate_tagged : String → Option EventMessage
  validate_tagged tag =
      if tag == "xp_awarded"
      then validate_xp_awarded
      else if tag == "lesson_completed"
      then validate_lesson_completed
      else if tag == "review_completed"
      then validate_review_completed
      else if tag == "friend_added"
      then validate_friend_added
      else if tag == "ad_watched"
      then validate_ad_watched
      else if tag == "subscription_changed"
      then validate_subscription_changed
      else none

-- `Field(discriminator="type")` on a decoded value.
unfoldable pub validate : Coercions → Json → Option EventMessage
validate c (dict fs) = required (text_of (validate_tagged c fs)) (lookup "type" fs)
validate c _ = none
