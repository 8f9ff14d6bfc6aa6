-- ===== src/Text/Decimal.antt =====
-- Decimal numbers: `%d` of fmt.Sprintf, and `%d` of fmt.Sscanf for an unsigned operand.
use Prim.Native.Char.{Char, code}
use Prim.Native.String.{String}
use modura.Prelude.{
  ℕ, zero, suc, ◌+◌, ◌*◌, ◌-◌, ◌/◌, ◌%◌, ◌^◌, ◌<◌, ◌⊎◌, Bool, true, false, ◌&&◌, ◌≡◌, refl, ◌∙◌,
  leb, ltb, nat_eq, Option, none, some, if◌then◌else◌, arith,
}
use modura.Text.{is_space}
use modura.Text.Split.{has_char}

-- The character of a digit.
unfoldable pub digit : ℕ → Char
digit zero = "0"
digit (suc zero) = "1"
digit (suc (suc zero)) = "2"
digit (suc (suc (suc zero))) = "3"
digit (suc (suc (suc (suc zero)))) = "4"
digit (suc (suc (suc (suc (suc zero))))) = "5"
digit (suc (suc (suc (suc (suc (suc zero)))))) = "6"
digit (suc (suc (suc (suc (suc (suc (suc zero))))))) = "7"
digit (suc (suc (suc (suc (suc (suc (suc (suc zero)))))))) = "8"
digit (suc (suc (suc (suc (suc (suc (suc (suc (suc n))))))))) = "9"

code-digit : (d : ℕ) → d < 10 → code (digit d) ≡ 48 + d
unfolding digit
code-digit zero h = refl
code-digit (suc zero) h = refl
code-digit (suc (suc zero)) h = refl
code-digit (suc (suc (suc zero))) h = refl
code-digit (suc (suc (suc (suc zero)))) h = refl
code-digit (suc (suc (suc (suc (suc zero))))) h = refl
code-digit (suc (suc (suc (suc (suc (suc zero)))))) h = refl
code-digit (suc (suc (suc (suc (suc (suc (suc zero))))))) h = refl
code-digit (suc (suc (suc (suc (suc (suc (suc (suc zero)))))))) h = refl
code-digit (suc (suc (suc (suc (suc (suc (suc (suc (suc zero))))))))) h = refl
code-digit (suc (suc (suc (suc (suc (suc (suc (suc (suc (suc n)))))))))) h = absurd (omega arith)

-- The digits of `n` before `rest`; a number has no more digits than it counts and one.
unfoldable pub print_before : ℕ → ℕ → String → String
print_before zero n rest = rest
print_before (suc fuel) n rest =
    let more = print_before fuel (n / 10) (String.◌∷◌ (digit (n % 10)) rest) in
    if ltb n 10 then String.◌∷◌ (digit n) rest else more

abbrev pub print_number : ℕ → String → String
print_number n rest = print_before (suc n) n rest

abbrev pub is_digit : Char → Bool
is_digit c = leb 48 (code c) && leb (code c) 57

-- The number that the digits at the front make after `acc`, and the text behind them.
unfoldable pub read_digits : ℕ → String → ℕ × String
read_digits acc String.[] = (acc, String.[])
read_digits acc (String.◌∷◌ c s) =
    let rest = read_digits (acc * 10 + (code c - 48)) s in
    if is_digit c then rest else (acc, String.◌∷◌ c s)

abbrev pub starts_with_digit : String → Bool
starts_with_digit String.[] = false
starts_with_digit (String.◌∷◌ c s) = is_digit c

read_digits-digit :
    (acc d : ℕ) (rest : String)
    → d < 10
    → read_digits acc (String.◌∷◌ (digit d) rest) ≡ read_digits (acc * 10 + d) rest
unfolding read_digits
read_digits-digit acc d rest h = ground (arith, code-digit d h)

pub read_digits-print_before :
    (fuel n : ℕ) (rest : String)
    → n < fuel
    → read_digits 0 (print_before fuel n rest) ≡ read_digits n rest
unfolding print_before
read_digits-print_before zero n rest h = absurd (omega arith)
read_digits-print_before (suc fuel) n rest h = ground (
  arith,
  read_digits-digit 0 n rest,
  read_digits-digit (n / 10) (n % 10) rest,
  read_digits-print_before fuel (n / 10) (String.◌∷◌ (digit (n % 10)) rest),
)

lt→ltb : (a b : ℕ) → a < b → ltb a b ≡ true
lt→ltb a b h = ground arith

-- What is printed before a text that does not start with a digit is read back.
pub read_digits-print_number :
    (n : ℕ) (rest : String)
    → starts_with_digit rest ≡ false
    → read_digits 0 (print_number n rest) ≡ (n, rest)
read_digits-print_number n rest h =
    read_digits-print_before (suc n) n rest (omega arith) ∙ stops n rest h
  where
    stops : (acc : ℕ) (s : String) → starts_with_digit s ≡ false → read_digits acc s ≡ (acc, s)
    stops acc String.[] k = unfold read_digits in refl
    stops acc (String.◌∷◌ c s) k = unfold read_digits in ground arith

pub print_before-starts_with_digit :
    (fuel n : ℕ) (rest : String) → starts_with_digit (print_before (suc fuel) n rest) ≡ true
unfolding print_before
print_before-starts_with_digit zero n rest = ground (arith, code-digit n, code-digit (n % 10))
print_before-starts_with_digit (suc fuel) n rest = ground (
  arith,
  code-digit n,
  print_before-starts_with_digit fuel (n / 10) (String.◌∷◌ (digit (n % 10)) rest),
)

-- What is printed has only digits before `rest`: another character is in it only if it is in `rest`.
pub has_char-print_before :
    (sep fuel n : ℕ) (rest : String)
    → (sep < 48) ⊎ (57 < sep)
    → has_char sep (print_before fuel n rest) ≡ has_char sep rest
unfolding print_before has_char
has_char-print_before sep zero n rest h = refl
has_char-print_before sep (suc fuel) n rest h = ground (
  arith,
  code-digit n,
  code-digit (n % 10),
  has_char-print_before sep fuel (n / 10) (String.◌∷◌ (digit (n % 10)) rest),
)

-- SkipSpace of fmt's scanner: a newline is an error.
unfoldable pub skip_space : String → Option String
skip_space String.[] = some String.[]
skip_space (String.◌∷◌ c s) =
    let rest = skip_space s in
    if nat_eq (code c) 10 then none else if is_space (code c) then rest else some (String.◌∷◌ c s)

-- The number that was read, if it fits in so many bits.
abbrev fitting : ℕ → ℕ × String → Option (ℕ × String)
fitting bits (n, rest) = if ltb n (2 ^ bits) then some (n, rest) else none

-- scanUint of fmt's scanner for the verb `%d`, after SkipSpace.
abbrev read_uint : ℕ → Option String → Option (ℕ × String)
read_uint bits none = none
read_uint bits (some s) = if starts_with_digit s then fitting bits (read_digits 0 s) else none

unfoldable pub scan_uint : ℕ → String → Option (ℕ × String)
unfolding skip_space read_digits
scan_uint bits s = read_uint bits (skip_space s)

skip_space-digit : (s : String) → starts_with_digit s ≡ true → skip_space s ≡ some s
unfolding skip_space is_space
skip_space-digit String.[] h = cc
skip_space-digit (String.◌∷◌ c s) h = ground arith

-- `%d` reads back what `%d` printed, if the number fits and no digit follows.
pub scan_uint-print_number :
    (bits n : ℕ) (rest : String)
    → n < 2 ^ bits
    → starts_with_digit rest ≡ false
    → scan_uint bits (print_number n rest) ≡ some (n, rest)
unfolding scan_uint
scan_uint-print_number bits n rest h k = rw (
  skip_space-digit _ (print_before-starts_with_digit n n rest),
  print_before-starts_with_digit n n rest,
  read_digits-print_number n rest k,
  lt→ltb n (2 ^ bits) h,
)
