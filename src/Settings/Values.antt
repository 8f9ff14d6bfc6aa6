-- ===== src/Settings/Values.antt =====
-- The tests on settings values in backend/internal/modules/settings: stableCode and
-- validConfigurationValue of service.go, and validValueType of postgres/store.go, which has the same
-- text. `decode` is the first JSON value that a decoder with UseNumber reads.
use Prim.Native.Char.{code}
use Prim.Native.String.{String, ◌++◌, count}
use text.Mathlib.TextLemmas.{cons-append, nil-append}
use modura.Prelude.{
  ℕ, Bool, true, false, ◌&&◌, ◌||◌, Option, none, some, ◌==◌, ◌≡◌, refl, ◌∙◌, leb, nat_eq,
  if◌then◌else◌, arith,
}
use modura.Text.Decimal.{
  read_digits, starts_with_digit, print_number, read_digits-print_number,
  print_before-starts_with_digit,
}
use modura.Audit.Redaction.{Json}

-- [a-z0-9]
abbrev is_code_end : ℕ → Bool
is_code_end c = (leb 97 c && leb c 122) || (leb 48 c && leb c 57)

-- [a-z0-9._-]
abbrev is_code_char : ℕ → Bool
is_code_char c = is_code_end c || nat_eq c 46 || nat_eq c 95 || nat_eq c 45

-- Characters of a code, of which the last may end one.
code_tail : String → Bool
code_tail String.[] = false
code_tail (String.◌∷◌ c String.[]) = is_code_end (code c)
code_tail (String.◌∷◌ c (String.◌∷◌ d s)) = is_code_char (code c) && code_tail (String.◌∷◌ d s)

-- ^[a-z0-9](?:[a-z0-9._-]{0,62}[a-z0-9])?$
unfoldable pub stable_code : String → Bool
unfolding code_tail
stable_code String.[] = false
stable_code (String.◌∷◌ c String.[]) = is_code_end (code c)
stable_code (String.◌∷◌ c (String.◌∷◌ d s)) =
    is_code_end (code c) && code_tail (String.◌∷◌ d s) && leb (count s) 62

abbrev is_whole : ℕ → ℕ × String → Bool
is_whole largest (n, String.[]) = leb n largest
is_whole largest (n, String.◌∷◌ c s) = false

unfoldable pub is_number_to : ℕ → String → Bool
is_number_to largest s = starts_with_digit s && is_whole largest (read_digits 0 s)

-- json.Number.Int64: whether strconv.ParseInt(s, 10, 64) succeeds.
unfoldable pub is_int64 : String → Bool
unfolding is_number_to
is_int64 String.[] = false
is_int64 (String.◌∷◌ c s) =
    if nat_eq (code c) b'-'
    then is_number_to 9223372036854775808 s
    else if nat_eq (code c) b'+'
    then is_number_to 9223372036854775807 s
    else is_number_to 9223372036854775807 (String.◌∷◌ c s)

abbrev is_text : Json → Bool
is_text (Json.text s) = true
is_text _ = false

abbrev is_boolean : Json → Bool
is_boolean (Json.boolean b) = true
is_boolean _ = false

abbrev is_integer : Json → Bool
is_integer (Json.number n) = is_int64 n
is_integer _ = false

value_has_type : String → Option Json → Bool
value_has_type value_type none = false
value_has_type value_type (some v) =
    if value_type == "string"
    then is_text v
    else if value_type == "boolean"
    then is_boolean v
    else if value_type == "integer"
    then is_integer v
    else value_type == "json"

-- validConfigurationValue, validValueType
unfoldable pub valid_value_type : (String → Option Json) → String → String → Bool
unfolding value_has_type
valid_value_type decode value_type value = value_has_type value_type (decode value)

is_number_to-print_number :
    (largest n : ℕ) → is_number_to largest (print_number n "") ≡ leb n largest
unfolding is_number_to
is_number_to-print_number largest n =
    rw (print_before-starts_with_digit n n "", read_digits-print_number n "" refl)

is_int64-digits :
    (s : String) → starts_with_digit s ≡ true → is_int64 s ≡ is_number_to 9223372036854775807 s
unfolding is_int64
is_int64-digits String.[] h = cc
is_int64-digits (String.◌∷◌ c s) h = ground arith

is_int64-minus : (s : String) → is_int64 ("-" ++ s) ≡ is_number_to 9223372036854775808 s
unfolding is_int64
is_int64-minus s = rw (cons-append _ _ s, nil-append s)

-- An integer that is written in decimal is admitted exactly if it is within the range of an int64.
pub valid_value_type-integer :
    (decode : String → Option Json) (value : String) (n : ℕ)
    → (decode value ≡ some (Json.number (print_number n ""))
        → valid_value_type decode "integer" value ≡ leb n 9223372036854775807)
      × (decode value ≡ some (Json.number ("-" ++ print_number n ""))
          → valid_value_type decode "integer" value ≡ leb n 9223372036854775808)
unfolding valid_value_type
valid_value_type-integer decode value n = (
  λ h. rw h (
      is_int64-digits _ (print_before-starts_with_digit n n "")
      ∙ is_number_to-print_number 9223372036854775807 n),
  λ h. rw h (is_int64-minus _ ∙ is_number_to-print_number 9223372036854775808 n),
)
