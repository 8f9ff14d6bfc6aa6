-- ===== src/Text.antt =====
-- The text functions of Go's standard library that the services use: strings.TrimSpace,
-- strings.ToLower, and the order in which texts are sorted. The case mapping of the characters that
-- are not ASCII is a table of the Unicode standard, an argument of the functions here.
pub mod Split
pub mod Decimal
use Prim.Native.String.{String}
use modura.Prelude.{ℕ, Bool, true, false, ◌&&◌, ◌||◌, Char, code, leb, ltb, nat_eq, if◌then◌else◌}

-- unicode.IsSpace: the characters of White_Space.
unfoldable pub is_space : ℕ → Bool
is_space c =
    (leb 9 c && leb c 13)
    || nat_eq c 32
    || nat_eq c 0x85
    || nat_eq c 0xA0
    || nat_eq c 0x1680
    || (leb 0x2000 c && leb c 0x200a)
    || nat_eq c 0x2028
    || nat_eq c 0x2029
    || nat_eq c 0x202f
    || nat_eq c 0x205f
    || nat_eq c 0x3000

unfoldable pub trim_left : String → String
unfolding is_space
trim_left String.[] = String.[]
trim_left (String.◌∷◌ c s) =
    let rest = trim_left s in if is_space (code c) then rest else String.◌∷◌ c s

abbrev pub is_empty : String → Bool
is_empty String.[] = true
is_empty (String.◌∷◌ c s) = false

unfoldable pub trim_right : String → String
unfolding is_space
trim_right String.[] = String.[]
trim_right (String.◌∷◌ c s) =
    let rest = trim_right s in
    if is_space (code c) && is_empty rest then String.[] else String.◌∷◌ c rest

-- strings.TrimSpace
unfoldable pub trim_space : String → String
unfolding trim_left trim_right
trim_space s = trim_right (trim_left s)

-- strings.Map(lower, s), and strings.ToLower with lower = unicode.ToLower.
unfoldable pub map_runes : (Char → Char) → String → String
map_runes lower String.[] = String.[]
map_runes lower (String.◌∷◌ c s) = String.◌∷◌ (lower c) (map_runes lower s)

-- Less than or equal in the order of UTF-8 bytes, which is the order of code points.
unfoldable pub text_le : String → String → Bool
text_le String.[] t = true
text_le (String.◌∷◌ c s) String.[] = false
text_le (String.◌∷◌ c s) (String.◌∷◌ d t) =
    ltb (code c) (code d) || (nat_eq (code c) (code d) && text_le s t)
