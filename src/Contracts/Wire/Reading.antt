-- ===== src/Contracts/Wire/Reading.antt =====
-- `EventMessage` of app/contracts/messages.py reads an object that carries a message as that message.
use lingo_async.Prelude.{
  suc, le→leb, String, ◌≡◌, ◌⊎◌, inl, inr, refl, true, false, Option, none, some, arith,
}
use lingo_async.Prelude.Int.{pos, negsuc}
use lingo_async.Python.Json.{Json, Fields, Float, ratio, nan, infinite, bool, int, str, dict}
use lingo_async.Contracts.Messages.{
  Stamp, XpAwarded, LessonCompleted, ReviewCompleted, FriendAdded, AdWatched, SubscriptionChanged,
  EventMessage, xp_awarded, lesson_completed, review_completed, friend_added, ad_watched,
  subscription_changed, InRange, InUnit, type_of,
}
use lingo_async.Contracts.Literals.{◌>>=◌, check, with_default, nullable, in_unit}
use lingo_async.Contracts.Validate.{
  Coercions, version, validate_xp_awarded, validate_lesson_completed, validate_review_completed,
  validate_friend_added, validate_ad_watched, validate_subscription_changed, validate_tagged,
  validate,
}
use lingo_async.Contracts.Wire.{nullable_text, Carries, Reads}
use lingo_async.Contracts.Wire.Names.{
  source_named-name, modality_named-name, rating_named-name, tier_named-name, change_named-name,
}

with_default-or :
    {A : Type 0} (d x : A) (convert : Json → Option A) (code : A → Json) (o : Option Json)
    → (o ≡ some (code x)) ⊎ ((o ≡ none) × (d ≡ x))
    → convert (code x) ≡ some x
    → with_default d convert o ≡ some x
with_default-or d x convert code o (inl e) h = rw (e, h) refl
with_default-or d x convert code o (inr (e, same)) h = rw (e, same) refl

in_unit_holds : (x : Float) → InUnit x → in_unit x ≡ true
in_unit_holds (ratio (pos n) d) h = le→leb n (suc d) h
in_unit_holds (ratio (negsuc n) d) h = absurd h
in_unit_holds nan h = absurd h
in_unit_holds infinite h = absurd h

module _ (time : Stamp → Json) (c : Coercions) (fs : Fields) where
  nullable-text :
      ((s : String) → c.to_str (str s) ≡ some s)
      → (o : Option String) → nullable c.to_str (nullable_text o) ≡ some o
  unfolding ◌>>=◌
  nullable-text h none = refl
  nullable-text h (some s) = rw (h) refl

  version-tt : {m : EventMessage} → Reads time c m → Carries time fs m → version c fs ≡ some tt
  unfolding check
  version-tt r h = elim h.version [
    | inl e ↦ rw (e, r.is_literal_int-int) refl
    | inr (e, _) ↦ rw (e) refl
  ]

  validate-xp :
      (m : XpAwarded)
      → Reads time c (xp_awarded m)
      → Carries time fs (xp_awarded m)
      → InRange (xp_awarded m)
      → validate_xp_awarded c fs ≡ some (xp_awarded m)
  unfolding validate_xp_awarded ◌>>=◌ check
  validate-xp m r h le =
      let language =
        with_default-or none m.learning_language_id (nullable c.to_str) nullable_text _
          h.fields.language (nullable-text r.to_str-str m.learning_language_id) in
      let opt_in =
        with_default-or true m.leaderboard_opt_in c.to_bool bool _ h.fields.opt_in
          (r.to_bool-bool m.leaderboard_opt_in) in
      ground (
        arith,
        version-tt r h,
        h.fields.user_id,
        r.to_str-str m.user_id,
        h.fields.amount,
        r.to_int-int m.amount,
        le→leb _ _ le,
        h.fields.source,
        source_named-name m.source,
        language,
        opt_in,
      )

  validate-lesson :
      (m : LessonCompleted)
      → Reads time c (lesson_completed m)
      → Carries time fs (lesson_completed m)
      → InRange (lesson_completed m)
      → validate_lesson_completed c fs ≡ some (lesson_completed m)
  unfolding validate_lesson_completed ◌>>=◌ check
  validate-lesson m r h le =
      let test_out =
        with_default-or false m.is_test_out c.to_bool bool _ h.fields.is_test_out
          (r.to_bool-bool m.is_test_out) in
      ground (
        arith,
        version-tt r h,
        h.fields.user_id,
        r.to_str-str m.user_id,
        h.fields.lesson_id,
        r.to_str-str m.lesson_id,
        h.fields.score,
        r.to_float-float m.score,
        in_unit_holds m.score le,
        h.fields.perfect,
        r.to_bool-bool m.perfect,
        h.fields.attempted_at,
        r.to_stamp-time,
        test_out,
      )

  validate-review :
      (m : ReviewCompleted)
      → Reads time c (review_completed m)
      → Carries time fs (review_completed m)
      → InRange (review_completed m)
      → validate_review_completed c fs ≡ some (review_completed m)
  unfolding validate_review_completed ◌>>=◌ check
  validate-review m r h le =
      let counted =
        with_default-or (pos 1) m.count c.to_int int _ h.fields.count (r.to_int-int m.count) in
      ground (
        arith,
        version-tt r h,
        h.fields.user_id,
        r.to_str-str m.user_id,
        h.fields.card_id,
        r.to_str-str m.card_id,
        h.fields.modality,
        modality_named-name m.modality,
        h.fields.rating,
        rating_named-name m.rating,
        counted,
        le→leb _ _ le,
      )

  validate-friend :
      (m : FriendAdded)
      → Reads time c (friend_added m)
      → Carries time fs (friend_added m)
      → validate_friend_added c fs ≡ some (friend_added m)
  unfolding validate_friend_added ◌>>=◌
  validate-friend m r h = ground (
    arith,
    version-tt r h,
    h.fields.user_id,
    r.to_str-str m.user_id,
    h.fields.friend_id,
    r.to_str-str m.friend_id,
  )

  validate-ad :
      (m : AdWatched)
      → Reads time c (ad_watched m)
      → Carries time fs (ad_watched m)
      → InRange (ad_watched m)
      → validate_ad_watched c fs ≡ some (ad_watched m)
  unfolding validate_ad_watched ◌>>=◌ check
  validate-ad m r h le = ground (
    arith,
    version-tt r h,
    h.fields.user_id,
    r.to_str-str m.user_id,
    h.fields.placement,
    r.to_str-str m.placement,
    h.fields.idempotency_key,
    r.to_str-str m.idempotency_key,
    h.fields.lingots_awarded,
    r.to_int-int m.lingots_awarded,
    le→leb _ _ le,
    h.fields.occurred_at,
    r.to_stamp-time,
  )

  validate-subscription :
      (m : SubscriptionChanged)
      → Reads time c (subscription_changed m)
      → Carries time fs (subscription_changed m)
      → validate_subscription_changed c fs ≡ some (subscription_changed m)
  unfolding validate_subscription_changed ◌>>=◌
  validate-subscription m r h = ground (
    arith,
    version-tt r h,
    h.fields.user_id,
    r.to_str-str m.user_id,
    h.fields.tier,
    tier_named-name m.tier,
    h.fields.event,
    change_named-name m.event,
  )

  validate_tagged-carried :
      (m : EventMessage)
      → Reads time c m
      → Carries time fs m
      → InRange m
      → validate_tagged c fs (type_of m) ≡ some m
  unfolding validate_tagged
  validate_tagged-carried (xp_awarded m) r h le = validate-xp m r h le
  validate_tagged-carried (lesson_completed m) r h le = validate-lesson m r h le
  validate_tagged-carried (review_completed m) r h le = validate-review m r h le
  validate_tagged-carried (friend_added m) r h le = validate-friend m r h
  validate_tagged-carried (ad_watched m) r h le = validate-ad m r h le
  validate_tagged-carried (subscription_changed m) r h le = validate-subscription m r h

  pub validate-carried :
      (m : EventMessage)
      → Reads time c m
      → Carries time fs m
      → InRange m
      → validate c (dict fs) ≡ some m
  unfolding validate
  validate-carried m r h le = rw (h.tag) (validate_tagged-carried m r h le)
