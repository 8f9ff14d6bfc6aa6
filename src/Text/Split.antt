-- ===== src/Text/Split.antt =====
-- strings.Split with a separator of one character.
use Prim.Native.Char.{Char, code}
use Prim.Native.String.{String, ◌++◌}
use text.Mathlib.TextLemmas.{nil-append, cons-append}
use modura.Prelude.{ℕ, Bool, false, ◌||◌, List, [], ◌∷◌, ◌≡◌, refl, nat_eq, if◌then◌else◌, arith}

-- The character goes to the front of the first part.
push_front : Char → List String → List String
push_front c [] = String.◌∷◌ c String.[] ∷ []
push_front c (p ∷ ps) = String.◌∷◌ c p ∷ ps

unfoldable pub split : ℕ → String → List String
unfolding push_front
split sep String.[] = String.[] ∷ []
split sep (String.◌∷◌ c s) =
    let rest = split sep s in if nat_eq (code c) sep then String.[] ∷ rest else push_front c rest

unfoldable pub has_char : ℕ → String → Bool
has_char sep String.[] = false
has_char sep (String.◌∷◌ c s) = nat_eq (code c) sep || has_char sep s

pub split_whole : (sep : ℕ) (s : String) → has_char sep s ≡ false → split sep s ≡ s ∷ []
unfolding split has_char
split_whole sep String.[] h = refl
split_whole sep (String.◌∷◌ c s) h = ground (arith, split_whole sep s)

pub split-append :
    (sep : ℕ) (a : String) (c : Char) (b : String)
    → has_char sep a ≡ false
    → code c ≡ sep
    → split sep (a ++ String.◌∷◌ c b) ≡ a ∷ split sep b
unfolding split has_char
split-append sep String.[] c b h e = ground (arith, nil-append (String.◌∷◌ c b))
split-append sep (String.◌∷◌ d a) c b h e =
    ground (arith, cons-append d a (String.◌∷◌ c b), split-append sep a c b)

-- A part before a separator that is a text of its own.
pub split-part :
    (sep : ℕ) (a : String) (c : Char) (b : String)
    → has_char sep a ≡ false
    → code c ≡ sep
    → split sep (a ++ (String.◌∷◌ c String.[] ++ b)) ≡ a ∷ split sep b
split-part sep a c b h e = rw (cons-append c String.[] b, nil-append b) (split-append sep a c b h e)

pub has_char-append :
    (sep : ℕ) (a b : String) → has_char sep (a ++ b) ≡ (has_char sep a || has_char sep b)
unfolding has_char
has_char-append sep String.[] b = rw (nil-append b)
has_char-append sep (String.◌∷◌ c a) b = ground (arith, cons-append c a b, has_char-append sep a b)
