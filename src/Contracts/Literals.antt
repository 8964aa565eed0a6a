-- ===== src/Contracts/Literals.antt =====
-- The `Literal` fields of app/contracts/messages.py, and how a field with or without a default is
-- read.
use lingo_async.Prelude.{
  suc, String, Bool, true, false, Option, none, some, ◌==◌, leb, if◌then◌else◌,
}
use lingo_async.Prelude.Int.{pos, negsuc}
use lingo_async.Python.Json.{Json, Float, ratio, nan, infinite, null, str}
use lingo_async.Contracts.Messages.{
  Source, lesson, review, manual, quest, streak, Modality, recognition, production, Rating, again,
  hard, good, easy, Tier, free, supporter, patron, lifetime, Change, new, upgraded, downgraded,
  churned,
}

infixl 5 ◌>>=◌ ◌>>◌
unfoldable pub ◌>>=◌ : {A B : Type 0} → Option A → (A → Option B) → Option B
none >>= f = none
some a >>= f = f a

abbrev pub ◌>>◌ : {A B : Type 0} → Option A → Option B → Option B
m >> k = m >>= λ _. k

unfoldable pub check : Bool → Option (Unit {0})
check true = some tt
check false = none

-- A field with no default.
abbrev pub required : {A : Type 0} → (Json → Option A) → Option Json → Option A
required convert none = none
required convert (some v) = convert v

-- A field with a default.
abbrev pub with_default : {A : Type 0} → A → (Json → Option A) → Option Json → Option A
with_default d convert none = some d
with_default d convert (some v) = convert v

-- `str | None`
abbrev pub nullable : (Json → Option String) → Json → Option (Option String)
nullable convert null = some none
nullable convert v = do s ← convert v; some (some s)

-- `Literal` of texts: only a text that is one of them fits.
abbrev pub text_of : {A : Type 0} → (String → Option A) → Json → Option A
text_of named (str s) = named s
text_of named _ = none

abbrev pub source_named : String → Option Source
source_named s =
    if s == "lesson"
    then some lesson
    else if s == "review"
    then some review
    else if s == "manual"
    then some manual
    else if s == "quest"
    then some quest
    else if s == "streak"
    then some streak
    else none

abbrev pub modality_named : String → Option Modality
modality_named s =
    if s == "recognition"
    then some recognition
    else if s == "production"
    then some production
    else none

abbrev pub rating_named : String → Option Rating
rating_named s =
    if s == "again"
    then some again
    else if s == "hard"
    then some hard
    else if s == "good"
    then some good
    else if s == "easy"
    then some easy
    else none

abbrev pub tier_named : String → Option Tier
tier_named s =
    if s == "free"
    then some free
    else if s == "supporter"
    then some supporter
    else if s == "patron"
    then some patron
    else if s == "lifetime"
    then some lifetime
    else none

abbrev pub change_named : String → Option Change
change_named s =
    if s == "new"
    then some new
    else if s == "upgraded"
    then some upgraded
    else if s == "downgraded"
    then some downgraded
    else if s == "churned"
    then some churned
    else none

-- Field(ge=0.0, le=1.0)
abbrev pub in_unit : Float → Bool
in_unit (ratio (pos n) d) = leb n (suc d)
in_unit (ratio (negsuc _) d) = false
in_unit nan = false
in_unit infinite = false
