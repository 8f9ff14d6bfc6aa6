-- ===== src/Identity/Password.antt =====
-- backend/internal/modules/identity/password.go: password hashes. Bytes are texts. Argon2id, the random
-- source and base64.RawStdEncoding (strict) are a record of functions.
pub mod Format
use Prim.Native.String.{◌++◌, len, count}
use modura.Prelude.{
  ℕ, ◌+◌, ◌*◌, ◌%◌, ◌^◌, String, Bool, not, ◌&&◌, ◌||◌, ◌==◌, Option, none, some, List, [], ◌∷◌,
  code, ltb, nat_eq, if◌then◌else◌,
}
use modura.Errors.{IdentityError, identity, message, wrap, driver, Result, ok, err, wrapped, ◌>>=◌}
use modura.Text.Split.{split}
use modura.Text.Decimal.{print_number, scan_uint}

pub record PasswordParameters : Type 0 where
  pub memory : ℕ
  pub iterations : ℕ
  pub parallelism : ℕ
  pub salt_length : ℕ
  pub key_length : ℕ

-- DefaultPasswordParameters
unfoldable pub default_password_parameters : PasswordParameters
default_password_parameters = record {
  memory = 19 * 1024;
  iterations = 2;
  parallelism = 1;
  salt_length = 16;
  key_length = 32;
}

-- `id_key` is argon2.IDKey: password, salt, iterations, memory, parallelism and key length.
pub record Hashing : Type 0 where
  pub random : ℕ → Result String
  pub id_key : String → String → ℕ → ℕ → ℕ → ℕ → String
  pub encode : String → String
  pub decode : String → Option String

unfoldable pub same_parameters : PasswordParameters → PasswordParameters → Bool
same_parameters p q =
    nat_eq p.memory q.memory
    && nat_eq p.iterations q.iterations
    && nat_eq p.parallelism q.parallelism
    && nat_eq p.salt_length q.salt_length
    && nat_eq p.key_length q.key_length

-- A literal of the format of Sscanf.
unfoldable pub scan_literal : String → String → Option String
scan_literal String.[] s = some s
scan_literal (String.◌∷◌ c l) String.[] = none
scan_literal (String.◌∷◌ c l) (String.◌∷◌ d s) =
    let rest = scan_literal l s in if nat_eq (code c) (code d) then rest else none

abbrev then_scan : {A : Type 0} → Option String → (String → Option A) → Option A
then_scan none f = none
then_scan (some s) f = f s

abbrev then_scanned : {A : Type 0} → Option (ℕ × String) → (ℕ → String → Option A) → Option A
then_scanned none f = none
then_scanned (some (n, s)) f = f n s

-- fmt.Sscanf(value, "m=%d,t=%d,p=%d", …) into two uint32 and a uint8: what follows is not read.
unfoldable pub scan_parameters : String → Option (ℕ × ℕ × ℕ)
unfolding scan_literal scan_uint
scan_parameters value = then_scan (scan_literal "m=" value) λ s.
    then_scanned (scan_uint 32 s) λ memory s. then_scan (scan_literal ",t=" s) λ s.
      then_scanned (scan_uint 32 s) λ iterations s.
        then_scan (scan_literal ",p=" s)
          λ s. then_scanned (scan_uint 8 s) λ parallelism s. some (memory, iterations, parallelism)

-- fmt.Sprintf("m=%d,t=%d,p=%d", …)
unfoldable pub print_parameters : PasswordParameters → String
print_parameters p =
    "m="
    ++ print_number p.memory
        (",t=" ++ print_number p.iterations (",p=" ++ print_number p.parallelism ""))

-- `if err != nil { return fmt.Errorf("…: %w", err) }`, where the package reports an error.
abbrev or_fail : {A : Type 0} → String → Option A → Result A
or_fail label none = err (wrap label driver)
or_fail label (some a) = ok a

module _ (env : Hashing) where
  decoded : String → String → Result String
  decoded label value = or_fail label (env.decode value)

  -- HashPassword
  unfoldable pub hash_password : String → PasswordParameters → Result String
  unfolding print_parameters
  hash_password password p =
      if ltb (len password) 12
      then err
          (wrap "must contain at least 12 characters" (identity IdentityError.invalid_password))
      else (do
        salt ← wrapped "generate password salt" (env.random p.salt_length)
        ok (
            "$"
            ++ ("argon2id"
                ++ ("$"
                    ++ ("v=19"
                        ++ ("$"
                            ++ (print_parameters p
                                ++ ("$"
                                    ++ (env.encode salt
                                        ++ ("$"
                                            ++ env.encode (
                                                env.id_key password salt p.iterations p.memory
                                                  p.parallelism p.key_length)))))))))))

  -- The test on the numbers, with the lengths of what was decoded.
  checked_parameters : ℕ × ℕ × ℕ → String → String → Result (PasswordParameters × String × String)
  checked_parameters (memory, iterations, parallelism) salt hash =
      if nat_eq memory 0
        || nat_eq iterations 0
        || nat_eq parallelism 0
        || ltb (count salt) 16
        || ltb (count hash) 16
      then err (message "invalid password parameters")
      else ok (
        record {
          memory = memory;
          iterations = iterations;
          parallelism = parallelism;
          salt_length = count salt % 2 ^ 32;
          key_length = count hash % 2 ^ 32;
        },
        salt,
        hash,
      )

  read_parameters : String → Result (ℕ × ℕ × ℕ)
  unfolding scan_parameters
  read_parameters value = or_fail "parse password parameters" (scan_parameters value)

  parse_parts : List String → Result (PasswordParameters × String × String)
  unfolding read_parameters decoded checked_parameters
  parse_parts (zeroth ∷ name ∷ version ∷ numbers ∷ salt ∷ hash ∷ []) =
      if not (name == "argon2id") || not (version == "v=19")
      then err (message "invalid password hash format")
      else (do
        parameters ← read_parameters numbers
        salt_bytes ← decoded "decode password salt" salt
        hash_bytes ← decoded "decode password hash" hash
        checked_parameters parameters salt_bytes hash_bytes)
  parse_parts _ = err (message "invalid password hash format")

  -- parsePasswordHash
  unfoldable pub parse_password_hash : String → Result (PasswordParameters × String × String)
  unfolding parse_parts split
  parse_password_hash encoded = parse_parts (split b'$' encoded)

  -- Whether the password is valid, and whether its hash needs upgrading.
  compare_password :
      String → PasswordParameters → PasswordParameters × String × String → Bool × Bool
  unfolding same_parameters
  compare_password password current (p, salt, expected) =
      let valid =
        env.id_key password salt p.iterations p.memory p.parallelism (count expected % 2 ^ 32)
        == expected in
      (valid, valid && not (same_parameters p current))

  -- VerifyPassword
  unfoldable pub verify_password : String → String → PasswordParameters → Result (Bool × Bool)
  unfolding compare_password
  verify_password password encoded current = do
    parsed ← parse_password_hash encoded
    ok (compare_password password current parsed)
