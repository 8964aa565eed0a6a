-- ===== src/Python/Json.antt =====
-- Values that `json.loads` and httpx's `Response.json` return, and what the source does with them.
use lingo_async.Prelude.{
  ℕ, zero, suc, ◌/◌, String, Bool, true, false, not, Option, none, some, List, [], ◌∷◌, ◌==◌,
  if◌then◌else◌,
}
use lingo_async.Prelude.Int.{ℤ, pos, negsuc}
use lingo_async.Python.Exn.{
  Result, ok, err, attribute_error, type_error, value_error, overflow_error,
}
use lingo_async.Python.Text.{is_empty, int_of_text}

-- `ratio n d` is the finite float n / (d + 1).
pub data Float : Type 0 where
  ratio : ℤ → ℕ → Float
  nan infinite : Float

mutual
  pub data Json : Type 0 where
    null : Json
    bool : Bool → Json
    int : ℤ → Json
    float : Float → Json
    str : String → Json
    arr : Items → Json
    dict : Fields → Json

  pub data Items : Type 0 where
    nil : Items
    cons : Json → Items → Items

  pub data Fields : Type 0 where
    end : Fields
    field : String → Json → Fields → Fields

-- The keys of a dict are distinct, so the first field with the key is the only one.
unfoldable pub lookup : String → Fields → Option Json
lookup k end = none
lookup k (field j v fs) = if j == k then some v else lookup k fs

-- `d.get(k)` of a value that should be a dict
unfoldable pub get : String → Json → Result (Option Json)
unfolding lookup
get k (dict fs) = ok (lookup k fs)
get k _ = err attribute_error

abbrev is_zero : ℤ → Bool
is_zero (pos zero) = true
is_zero (pos (suc _)) = false
is_zero (negsuc _) = false

-- `bool(v)`
unfoldable pub is_truthy : Json → Bool
is_truthy null = false
is_truthy (bool b) = b
is_truthy (int n) = not (is_zero n)
is_truthy (float (ratio n d)) = not (is_zero n)
is_truthy (float _) = true
is_truthy (str s) = not (is_empty s)
is_truthy (arr nil) = false
is_truthy (arr (cons _ _)) = true
is_truthy (dict end) = false
is_truthy (dict (field _ _ _)) = true

-- `found or d`, where a missing key reads as None
unfoldable pub or_else : Option Json → Json → Json
unfolding is_truthy
or_else none d = d
or_else (some v) d = if is_truthy v then v else d

abbrev pub list_of : Items → List Json
list_of nil = []
list_of (cons v vs) = v ∷ list_of vs

abbrev keys_of : Fields → List Json
keys_of end = []
keys_of (field k v fs) = str k ∷ keys_of fs

abbrev chars_of : String → List Json
chars_of String.[] = []
chars_of (String.◌∷◌ c s) = str (String.◌∷◌ c "") ∷ chars_of s

-- What a `for` loop over the value sees.
unfoldable pub iterate : Json → Result (List Json)
iterate (arr vs) = ok (list_of vs)
iterate (dict fs) = ok (keys_of fs)
iterate (str s) = ok (chars_of s)
iterate _ = err type_error

-- `v == text`
unfoldable pub is_text : String → Option Json → Bool
is_text t (some (str s)) = s == t
is_text t _ = false

abbrev truncated : ℤ → ℕ → ℤ
truncated (pos n) d = pos (n / suc d)
truncated (negsuc n) d = elim (suc n / suc d) [ zero ↦ pos 0 | suc m ↦ negsuc m ]

abbrev or_value_error : Option ℤ → Result ℤ
or_value_error none = err (value_error "int")
or_value_error (some n) = ok n

-- `int(v)`
unfoldable pub to_int : Json → Result ℤ
unfolding int_of_text
to_int (bool true) = ok (pos 1)
to_int (bool false) = ok (pos 0)
to_int (int n) = ok n
to_int (float (ratio n d)) = ok (truncated n d)
to_int (float nan) = err (value_error "int")
to_int (float infinite) = err overflow_error
to_int (str s) = or_value_error (int_of_text s)
to_int _ = err type_error
