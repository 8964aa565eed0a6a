-- ===== src/Contracts/Constraints.antt =====
-- What a message is known to satisfy once app/contracts/messages.py has parsed it.
use lingo_async.Prelude.{
  inl, inr, Option-cases, subst, String, ◌≡◌, refl, Bool, true, false, Option, none, some, leb→le,
  if◌then◌else◌,
}
use lingo_async.Prelude.Int.{pos, negsuc}
use lingo_async.Python.Json.{
  Json, Fields, Float, null, bool, int, float, str, arr, dict, lookup, ratio, nan, infinite,
}
use lingo_async.Contracts.Messages.{EventMessage, InRange, InUnit}
use lingo_async.Contracts.Literals.{in_unit, check, required, text_of, ◌>>=◌}
use lingo_async.Contracts.Validate.{
  Coercions, validate_xp_awarded, validate_lesson_completed, validate_review_completed,
  validate_friend_added, validate_ad_watched, validate_subscription_changed, validate_tagged,
  validate,
}
use lingo_async.Contracts.Envelope.{Codec, Body, unwrap_kombu_envelope}
use lingo_async.Python.Exn.{Result-cases}
use lingo_async.Contracts.Parse.{
  Pydantic, Input, body, decoded, parsed, raised, outcome, validate_json, parse_event,
}

-- Whatever the code returns satisfies `P`.
data Ensures {A : Type 0} (P : A → Type 0) : Option A → Type 0 where
  fails : Ensures P none
  returns : {a : A} → P a → Ensures P (some a)

module _ {A B : Type 0} {P : B → Type 0} where
  Ensures-bind :
      (o : Option A) (f : A → Option B) → ((a : A) → Ensures P (f a)) → Ensures P (o >>= f)
  unfolding ◌>>=◌
  Ensures-bind none f h = fails
  Ensures-bind (some a) f h = h a

module _ {B : Type 0} {P : B → Type 0} where
  Ensures-check :
      (b : Bool) (k : Option B) → (b ≡ true → Ensures P k) → Ensures P (check b >>= λ _. k)
  unfolding ◌>>=◌ check
  Ensures-check true k h = h refl
  Ensures-check false k h = fails

  Ensures-if :
      (b : Bool) (k l : Option B) → Ensures P k → Ensures P l → Ensures P (if b then k else l)
  Ensures-if true k l hk hl = hk
  Ensures-if false k l hk hl = hl

in_unit-InUnit : (x : Float) → in_unit x ≡ true → InUnit x
in_unit-InUnit (ratio (pos n) d) h = leb→le _ _ h
in_unit-InUnit (ratio (negsuc n) d) h = cc
in_unit-InUnit nan h = cc
in_unit-InUnit infinite h = cc

module _ (c : Coercions) (fs : Fields) where
  xp_awarded-InRange : Ensures InRange (validate_xp_awarded c fs)
  unfolding validate_xp_awarded
  xp_awarded-InRange = Ensures-bind _ _ λ _. Ensures-bind _ _ λ _. Ensures-bind _ _ λ _.
      Ensures-check _ _ λ h.
        Ensures-bind _ _ λ _. Ensures-bind _ _ λ _. Ensures-bind _ _ λ _. returns (leb→le _ _ h)

  lesson_completed-InRange : Ensures InRange (validate_lesson_completed c fs)
  unfolding validate_lesson_completed
  lesson_completed-InRange = Ensures-bind _ _ λ _. Ensures-bind _ _ λ _. Ensures-bind _ _ λ _.
      Ensures-bind _ _ λ x. Ensures-check _ _ λ h.
        Ensures-bind _ _
          λ _. Ensures-bind _ _ λ _. Ensures-bind _ _ λ _. returns (in_unit-InUnit x h)

  review_completed-InRange : Ensures InRange (validate_review_completed c fs)
  unfolding validate_review_completed
  review_completed-InRange = Ensures-bind _ _ λ _. Ensures-bind _ _ λ _. Ensures-bind _ _ λ _.
      Ensures-bind _ _ λ _.
        Ensures-bind _ _ λ _. Ensures-bind _ _ λ _. Ensures-check _ _ λ h. returns (leb→le _ _ h)

  friend_added-InRange : Ensures InRange (validate_friend_added c fs)
  unfolding validate_friend_added
  friend_added-InRange =
      Ensures-bind _ _ λ _. Ensures-bind _ _ λ _. Ensures-bind _ _ λ _. returns tt

  ad_watched-InRange : Ensures InRange (validate_ad_watched c fs)
  unfolding validate_ad_watched
  ad_watched-InRange = Ensures-bind _ _ λ _. Ensures-bind _ _ λ _. Ensures-bind _ _ λ _.
      Ensures-bind _ _ λ _.
        Ensures-bind _ _ λ _. Ensures-check _ _ λ h. Ensures-bind _ _ λ _. returns (leb→le _ _ h)

  subscription_changed-InRange : Ensures InRange (validate_subscription_changed c fs)
  unfolding validate_subscription_changed
  subscription_changed-InRange =
      Ensures-bind _ _
        λ _. Ensures-bind _ _ λ _. Ensures-bind _ _ λ _. Ensures-bind _ _ λ _. returns tt

  validate_tagged-InRange : (tag : String) → Ensures InRange (validate_tagged c fs tag)
  unfolding validate_tagged
  validate_tagged-InRange tag = Ensures-if _ _ _ xp_awarded-InRange (
      Ensures-if _ _ _ lesson_completed-InRange (
        Ensures-if _ _ _ review_completed-InRange (
          Ensures-if _ _ _ friend_added-InRange (
            Ensures-if _ _ _ ad_watched-InRange
              (Ensures-if _ _ _ subscription_changed-InRange fails)))))

  tag-InRange : (o : Option Json) → Ensures InRange (required (text_of (validate_tagged c fs)) o)
  tag-InRange none = fails
  tag-InRange (some (str tag)) = validate_tagged-InRange tag
  tag-InRange (some null) = fails
  tag-InRange (some (bool _)) = fails
  tag-InRange (some (int _)) = fails
  tag-InRange (some (float _)) = fails
  tag-InRange (some (arr _)) = fails
  tag-InRange (some (dict _)) = fails

validate-InRange : (c : Coercions) (v : Json) → Ensures InRange (validate c v)
unfolding validate
validate-InRange c (dict fs) = tag-InRange c fs (lookup "type" fs)
validate-InRange c null = fails
validate-InRange c (bool _) = fails
validate-InRange c (int _) = fails
validate-InRange c (float _) = fails
validate-InRange c (str _) = fails
validate-InRange c (arr _) = fails

outcome-InRange :
    {o : Option EventMessage} {m : EventMessage}
    → Ensures InRange o
    → outcome o ≡ parsed m
    → InRange m
outcome-InRange fails e = cc
outcome-InRange {m} (returns {a} p) e = let same : a ≡ m = cc in subst InRange same p

validate_json-InRange : (p : Pydantic) (b : Body) → Ensures InRange (validate_json p b)
unfolding validate_json
validate_json-InRange p b = elim (Option-cases (p.from_json b)) [
  | inl e ↦ rw (e, validate_json) fails
  | inr (v, e) ↦ rw (e, validate_json) (validate-InRange p.json_mode v)
]

-- Every message that `parse_event` returns satisfies the Field constraints of its class: amounts
-- and lingots are not negative, a score lies in [0, 1], a count of reviews is at least 1.
pub parse_event-InRange :
    (c : Codec) (p : Pydantic) (i : Input) (m : EventMessage)
    → parse_event c p i ≡ parsed m
    → InRange m
unfolding parse_event
parse_event-InRange c p (decoded v) m h = outcome-InRange (validate-InRange p.python_mode v) h
parse_event-InRange c p (body b) m h = elim (Result-cases (unwrap_kombu_envelope c b)) [
  | inl (inner, e) ↦ outcome-InRange (validate_json-InRange p inner) (rw (e, parse_event) at h)
  | inr (x, e) ↦ let k : raised x ≡ parsed m = rw (e, parse_event) at h in cc
]
