-- ===== src/Contracts/Wire/RoundTrip.antt =====
-- From a message through the producer's wire format and `parse_event` of app/contracts/messages.py
-- back to the message.
use lingo_async.Prelude.{String, ◌≡◌, refl, inl, some, arith}
use lingo_async.Prelude.Int.{pos}
use lingo_async.Python.Json.{Json, Fields, bool, int, float, str, dict, end, field, lookup}
use lingo_async.Contracts.Messages.{
  Stamp, EventMessage, xp_awarded, lesson_completed, review_completed, friend_added, ad_watched,
  subscription_changed, InRange, type_of,
}
use lingo_async.Contracts.Envelope.{Codec, text}
use lingo_async.Contracts.Parse.{Pydantic, body, decoded, parsed, parse_event, validate_json}
use lingo_async.Contracts.Unwrap.{Encoders, IsEnvelope, IsLawful, wire, unwrap-wire}
use lingo_async.Contracts.Wire.{
  source_name, modality_name, rating_name, tier_name, change_name, nullable_text, Carries,
  HasFields, Reads,
}
use lingo_async.Contracts.Wire.Reading.{validate-carried}

module _ (time : Stamp → Json) where
  abbrev fields_of : EventMessage → Fields
  fields_of (xp_awarded m) = field "user_id" (str m.user_id) (
      field "amount" (int m.amount) (
        field "source" (str (source_name m.source)) (
          field "learning_language_id" (nullable_text m.learning_language_id)
            (field "leaderboard_opt_in" (bool m.leaderboard_opt_in) end))))
  fields_of (lesson_completed m) = field "user_id" (str m.user_id) (
      field "lesson_id" (str m.lesson_id) (
        field "score" (float m.score) (
          field "perfect" (bool m.perfect) (
            field "attempted_at" (time m.attempted_at)
              (field "is_test_out" (bool m.is_test_out) end)))))
  fields_of (review_completed m) = field "user_id" (str m.user_id) (
      field "card_id" (str m.card_id) (
        field "modality" (str (modality_name m.modality))
          (field "rating" (str (rating_name m.rating)) (field "count" (int m.count) end))))
  fields_of (friend_added m) =
      field "user_id" (str m.user_id) (field "friend_id" (str m.friend_id) end)
  fields_of (ad_watched m) = field "user_id" (str m.user_id) (
      field "placement" (str m.placement) (
        field "idempotency_key" (str m.idempotency_key) (
          field "lingots_awarded" (int m.lingots_awarded)
            (field "occurred_at" (time m.occurred_at) end))))
  fields_of (subscription_changed m) =
      field "user_id" (str m.user_id)
        (field "tier" (str (tier_name m.tier)) (field "event" (str (change_name m.event)) end))

  -- The object of a message, with each of its fields.
  abbrev pub encode : EventMessage → Fields
  encode m = field "type" (str (type_of m)) (field "version" (int (pos 1)) (fields_of m))

  encode-HasFields : (m : EventMessage) → HasFields time (encode m) m
  unfolding lookup
  encode-HasFields (xp_awarded m) = record {
    user_id = refl;
    amount = refl;
    source = refl;
    language = inl refl;
    opt_in = inl refl;
  }
  encode-HasFields (lesson_completed m) = record {
    user_id = refl;
    lesson_id = refl;
    score = refl;
    perfect = refl;
    attempted_at = refl;
    is_test_out = inl refl;
  }
  encode-HasFields (review_completed m) = record {
    user_id = refl;
    card_id = refl;
    modality = refl;
    rating = refl;
    count = inl refl;
  }
  encode-HasFields (friend_added m) = record { user_id = refl; friend_id = refl }
  encode-HasFields (ad_watched m) = record {
    user_id = refl;
    placement = refl;
    idempotency_key = refl;
    lingots_awarded = refl;
    occurred_at = refl;
  }
  encode-HasFields (subscription_changed m) = record { user_id = refl; tier = refl; event = refl }

  pub encode-Carries : (m : EventMessage) → Carries time (encode m) m
  unfolding lookup
  encode-Carries m = record { tag = refl; version = inl refl; fields = encode-HasFields m }

  -- If json, base64 and UTF-8 decode what the producer encoded with them and pydantic takes values
  -- of the right types as they are, `parse_event` turns the two-layer SQS body of an object that
  -- carries a message in range into that message, whatever headers, properties and other keys
  -- kombu's envelope has besides, whatever the order of the object's fields, whatever fields there
  -- are besides, and also where fields that have their default are missing.
  pub parse_event-wire :
      (c : Codec) (e : Encoders) (p : Pydantic) (payload : String) (es fs : Fields)
      (m : EventMessage)
      → IsEnvelope c e payload es
      → IsLawful c e payload es
      → p.from_json (text payload) ≡ some (dict fs)
      → Reads time p.json_mode m
      → Carries time fs m
      → InRange m
      → parse_event c p (body (text (wire c e payload es))) ≡ parsed m
  unfolding parse_event validate_json
  parse_event-wire c e p payload es fs m sealed lawful parses r h le = ground (
    arith,
    unwrap-wire c e payload es sealed lawful,
    parses,
    validate-carried time p.json_mode fs m r h le,
  )

  pub parse_event-encode :
      (c : Codec) (p : Pydantic) (m : EventMessage)
      → Reads time p.python_mode m
      → InRange m
      → parse_event c p (decoded (dict (encode m))) ≡ parsed m
  unfolding parse_event
  parse_event-encode c p m r le =
      rw (validate-carried time p.python_mode (encode m) m r (encode-Carries m) le) refl
