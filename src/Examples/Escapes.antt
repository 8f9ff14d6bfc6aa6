-- ===== src/Examples/Escapes.antt =====
-- An encoding whose texts lack one character, for the runs on tokens and passwords: an escape of the
-- character and of its own mark.
use Prim.Native.Char.{Char, code}
use Prim.Native.String.{String}
use text.Mathlib.TextEquality.{Char-path}
use modura.Prelude.{Bool, true, false, ◌≡◌, refl, ap, nat_eq, if◌then◌else◌, arith}
use modura.Text.Split.{has_char}

abbrev letter_a : Char
letter_a = "a"

abbrev letter_b : Char
letter_b = "b"

-- The mark is `a`; the escaped character becomes `aa`, and the mark itself `ab`.
abbrev plain : Char → Bool → Bool → String → String
plain c true m s = String.◌∷◌ letter_a (String.◌∷◌ letter_a s)
plain c false true s = String.◌∷◌ letter_a (String.◌∷◌ letter_b s)
plain c false false s = String.◌∷◌ c s

unfoldable pub escape : Char → String → String
escape sep String.[] = String.[]
escape sep (String.◌∷◌ c s) =
    plain c (nat_eq (code c) (code sep)) (nat_eq (code c) b'a') (escape sep s)

unfoldable pub unescape : Char → Bool → String → String
unescape sep marked String.[] = String.[]
unescape sep false (String.◌∷◌ c s) =
    let after = unescape sep true s in
    let rest = unescape sep false s in if nat_eq (code c) b'a' then after else String.◌∷◌ c rest
unescape sep true (String.◌∷◌ c s) =
    let rest = unescape sep false s in
    if nat_eq (code c) b'a' then String.◌∷◌ sep rest else String.◌∷◌ letter_a rest

pub unescape-escape : (sep : Char) (s : String) → unescape sep false (escape sep s) ≡ s
unfolding escape unescape
unescape-escape sep String.[] = refl
unescape-escape sep (String.◌∷◌ c s) =
    by_char (unescape-escape sep s) (nat_eq (code c) (code sep)) (nat_eq (code c) b'a') refl refl
  where
    by_char :
        unescape sep false (escape sep s) ≡ s
        → (x m : Bool) → nat_eq (code c) (code sep) ≡ x
        → nat_eq (code c) b'a' ≡ m
        → unescape sep false (plain c x m (escape sep s)) ≡ String.◌∷◌ c s
    by_char ih true m h k = rw ih (ap (λ d. String.◌∷◌ d s) (Char-path sep c (ground arith)))
    by_char ih false true h k =
        rw ih (ap (λ d. String.◌∷◌ d s) (Char-path letter_a c (ground arith)))
    by_char ih false false h k = rw (k, ih)

pub escape-lacks :
    (sep : Char) (s : String)
    → nat_eq b'a' (code sep) ≡ false
    → nat_eq b'b' (code sep) ≡ false
    → has_char (code sep) (escape sep s) ≡ false
unfolding escape has_char
escape-lacks sep String.[] h k = refl
escape-lacks sep (String.◌∷◌ c s) h k =
    by_char (escape-lacks sep s h k) (nat_eq (code c) (code sep)) (nat_eq (code c) b'a') refl
  where
    by_char :
        has_char (code sep) (escape sep s) ≡ false
        → (x m : Bool) → nat_eq (code c) (code sep) ≡ x
        → has_char (code sep) (plain c x m (escape sep s)) ≡ false
    by_char ih true m e = rw (h, ih)
    by_char ih false true e = rw (h, k, ih)
    by_char ih false false e = rw (e, ih)
