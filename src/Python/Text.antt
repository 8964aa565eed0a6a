-- ===== src/Python/Text.antt =====
-- Python's `str` methods that the source calls, on the native texts.
use Prim.Native.Char.{Char, code}
use text.Mathlib.Text.{starts_with}
use lingo_async.Prelude.{
  ℕ, zero, suc, ◌+◌, ◌-◌, ◌*◌, String, ◌≡◌, refl, Bool, true, false, ◌&&◌, ◌||◌, Option, none, some,
  List, [], ◌∷◌, map, leb, eqb, if◌then◌else◌,
}
use lingo_async.Prelude.Int.{ℤ, pos, negsuc}

-- `str.isspace` of one character.
unfoldable pub is_space : ℕ → Bool
is_space c =
    (leb 9 c && leb c 13)
    || (leb 28 c && leb c 32)
    || eqb c 0x85
    || eqb c 0xa0
    || eqb c 0x1680
    || (leb 0x2000 c && leb c 0x200a)
    || eqb c 0x2028
    || eqb c 0x2029
    || eqb c 0x202f
    || eqb c 0x205f
    || eqb c 0x3000

-- `s.lstrip(...)`: what is left after the leading characters that pass the test.
unfoldable pub lstrip : (ℕ → Bool) → String → String
lstrip p String.[] = ""
lstrip p (String.◌∷◌ c s) = if p (code c) then lstrip p s else String.◌∷◌ c s

-- A character that passes the test is kept only in front of a text that is not empty.
abbrev keep_before : (ℕ → Bool) → Char → String → String
keep_before p c String.[] = if p (code c) then "" else String.◌∷◌ c ""
keep_before p c (String.◌∷◌ d s) = String.◌∷◌ c (String.◌∷◌ d s)

-- `s.rstrip(...)`
unfoldable pub rstrip : (ℕ → Bool) → String → String
rstrip p String.[] = ""
rstrip p (String.◌∷◌ c s) = keep_before p c (rstrip p s)

-- `s.strip()`
unfoldable pub strip : String → String
unfolding lstrip rstrip is_space
strip s = rstrip is_space (lstrip is_space s)

-- `s.rstrip("/")`
unfoldable pub rstrip_slash : String → String
unfolding rstrip
rstrip_slash s = rstrip (λ c. eqb c b'/') s

-- The truth value of a text.
abbrev pub is_empty : String → Bool
is_empty String.[] = true
is_empty (String.◌∷◌ _ _) = false

abbrev pub codes : String → List ℕ
codes String.[] = []
codes (String.◌∷◌ c s) = code c ∷ codes s

-- The decimal digits of an `int` literal, with single underscores between digits. The flag says
-- that the character before was a digit.
digits_from : Bool → ℕ → List ℕ → Option ℕ
digits_from after_digit n [] = if after_digit then some n else none
digits_from after_digit n (c ∷ cs) =
    let is_digit = leb b'0' c && leb c b'9' in
    let rest = digits_from is_digit (if is_digit then n * 10 + (c - b'0') else n) cs in
    if is_digit || (after_digit && eqb c b'_') then rest else none

abbrev negated : ℕ → ℤ
negated zero = pos 0
negated (suc n) = negsuc n

abbrev signed : Bool → Option ℕ → Option ℤ
signed minus none = none
signed true (some n) = some (negated n)
signed false (some n) = some (pos n)

signed_digits : List ℕ → Option ℤ
unfolding digits_from
signed_digits [] = none
signed_digits (c ∷ cs) =
    if eqb c b'-'
    then signed true (digits_from false 0 cs)
    else if eqb c b'+'
    then signed false (digits_from false 0 cs)
    else signed false (digits_from false 0 (c ∷ cs))

-- `int(s)` at a text of ASCII characters; none is the ValueError.
unfoldable pub int_of_text : String → Option ℤ
unfolding strip signed_digits
int_of_text s = signed_digits (codes (strip s))

int_of_text_examples :
    (int_of_text " -1_024 " ≡ some (negsuc 1023))
    × (int_of_text "1__0" ≡ none)
    × (int_of_text "" ≡ none)
    × (int_of_text "+7" ≡ some (pos 7))
unfolding int_of_text
int_of_text_examples = (refl, refl, refl, refl)

strip_examples : (strip "  ja\n" ≡ "ja") × (rstrip_slash "http://core//" ≡ "http://core")
unfolding strip rstrip_slash
strip_examples = (refl, refl)

-- `needle in s`
unfoldable pub contains : String → String → Bool
contains needle String.[] = is_empty needle
contains needle (String.◌∷◌ c s) = starts_with (String.◌∷◌ c s) needle || contains needle s

abbrev lower_code : ℕ → ℕ
lower_code c = if leb b'A' c && leb c b'Z' then c + 32 else c

same_codes : List ℕ → List ℕ → Bool
same_codes [] [] = true
same_codes (c ∷ cs) (d ∷ ds) = eqb c d && same_codes cs ds
same_codes _ _ = false

-- `s.lower() == t` at a text `t` of the lower-case letters a to z without k: of all characters
-- beyond ASCII, only the Kelvin sign lowers to one of ASCII, which is k.
unfoldable pub lower_is : String → String → Bool
unfolding same_codes
lower_is s t = same_codes (map lower_code (codes s)) (codes t)

lower_is_examples :
    (lower_is "SQLite" "sqlite" ≡ true)
    × (lower_is "DynamoDB" "sqlite" ≡ false)
    × (lower_is "" "sqlite" ≡ false)
unfolding lower_is
lower_is_examples = (refl, refl, refl)
