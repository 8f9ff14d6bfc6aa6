-- ===== src/Identity/Password/Format.antt =====
-- The format of password hashes: what `VerifyPassword` reads from what `HashPassword` writes.
use Prim.Native.String.{◌++◌, count, len}
use text.Mathlib.TextLemmas.{cons-append, nil-append}
use modura.Prelude.{
  ℕ, Char, suc, ◌%◌, ◌^◌, ◌≤◌, ◌<◌, String, true, false, not, ◌&&◌, ◌==◌, some, [], ◌∷◌, ◌≡◌, refl,
  sym, ◌∙◌, ap, subst, inl, inr, ltb, Bool-cases, eq_refl, arith,
}
use modura.Errors.{Result, ok, err, wrapped, ◌>>=◌}
use modura.Text.Split.{split, has_char, split_whole, split-part, has_char-append}
use modura.Text.Decimal.{
  print_number, scan_uint-print_number, has_char-print_before, starts_with_digit, is_digit,
}
use modura.Identity.Password.{
  PasswordParameters, Hashing, same_parameters, scan_literal, scan_parameters, print_parameters,
  hash_password, checked_parameters, read_parameters, decoded, parse_parts, parse_password_hash,
  compare_password, verify_password,
}

-- What the packages document: strict decoding undoes encoding, the alphabet of base64.RawStdEncoding
-- has no dollar, a salt is as long as asked for, and argon2.IDKey returns the key length.
pub record IsDocumented (env : Hashing) : Type 0 where
  pub decoded : (x : String) → env.decode (env.encode x) ≡ some x
  pub undollared : (x : String) → has_char b'$' (env.encode x) ≡ false
  pub salted : (n : ℕ) (s : String) → env.random n ≡ ok s → count s ≡ n
  pub keyed : (password salt : String) (t m p n : ℕ) → count (env.id_key password salt t m p n) ≡ n

-- Parameters that a hash can hold and that `parsePasswordHash` admits.
pub record IsUsable (p : PasswordParameters) : Type 0 where
  pub memory : (0 < p.memory) × (p.memory < 2 ^ 32)
  pub iterations : (0 < p.iterations) × (p.iterations < 2 ^ 32)
  pub parallelism : (0 < p.parallelism) × (p.parallelism < 2 ^ 8)
  pub salt_length : (16 ≤ p.salt_length) × (p.salt_length < 2 ^ 32)
  pub key_length : (16 ≤ p.key_length) × (p.key_length < 2 ^ 32)

scan_literal-append : (l s : String) → scan_literal l (l ++ s) ≡ some s
unfolding scan_literal
scan_literal-append String.[] s = rw (nil-append s)
scan_literal-append (String.◌∷◌ c l) s = ground (arith, cons-append c l s, scan_literal-append l s)

starts_with_digit-append :
    (c : Char) (l s : String) → is_digit c ≡ false → starts_with_digit (String.◌∷◌ c l ++ s) ≡ false
starts_with_digit-append c l s h = rw (cons-append c l s) h

pub scan_parameters-print_parameters :
    (p : PasswordParameters)
    → IsUsable p
    → scan_parameters (print_parameters p) ≡ some (p.memory, p.iterations, p.parallelism)
unfolding scan_parameters print_parameters
scan_parameters-print_parameters p k =
    let last = ",p=" ++ print_number p.parallelism "" in
    let middle = ",t=" ++ print_number p.iterations last in
    rw (
      scan_literal-append "m=" (print_number p.memory middle),
      scan_uint-print_number 32 p.memory middle k.memory.1
          (starts_with_digit-append _ _ (print_number p.iterations last) refl),
      scan_literal-append ",t=" (print_number p.iterations last),
      scan_uint-print_number 32 p.iterations last k.iterations.1
          (starts_with_digit-append _ _ (print_number p.parallelism "") refl),
      scan_literal-append ",p=" (print_number p.parallelism ""),
      scan_uint-print_number 8 p.parallelism "" k.parallelism.1 refl,
    )

print_parameters-undollared : (p : PasswordParameters) → has_char b'$' (print_parameters p) ≡ false
unfolding print_parameters has_char
print_parameters-undollared p =
    let last = ",p=" ++ print_number p.parallelism "" in
    let middle = ",t=" ++ print_number p.iterations last in
    rw (
      has_char-append b'$' "m=" (print_number p.memory middle),
      has_char-print_before b'$' (suc p.memory) p.memory middle (inl (omega arith)),
      has_char-append b'$' ",t=" (print_number p.iterations last),
      has_char-print_before b'$' (suc p.iterations) p.iterations last (inl (omega arith)),
      has_char-append b'$' ",p=" (print_number p.parallelism ""),
      has_char-print_before b'$' (suc p.parallelism) p.parallelism "" (inl (omega arith)),
    )

module _ (env : Hashing) (law : IsDocumented env) where
  -- The Argon2id key of a password under the parameters and a salt.
  abbrev pub digest : String → PasswordParameters → String → String
  digest password p salt = env.id_key password salt p.iterations p.memory p.parallelism p.key_length

  -- The text of a hash with this salt.
  abbrev encoded_hash : String → PasswordParameters → String → String
  encoded_hash password p salt =
      "$"
      ++ ("argon2id"
          ++ ("$"
              ++ ("v=19"
                  ++ ("$"
                      ++ (print_parameters p
                          ++ ("$"
                              ++ (env.encode salt
                                  ++ ("$" ++ env.encode (digest password p salt)))))))))

  split-encoded_hash :
      (password : String) (p : PasswordParameters) (salt : String)
      → split b'$' (encoded_hash password p salt)
        ≡ ""
          ∷ "argon2id"
          ∷ "v=19"
          ∷ print_parameters p
          ∷ env.encode salt
          ∷ env.encode (digest password p salt)
          ∷ []
  unfolding has_char
  split-encoded_hash password p salt =
      let hash = env.encode (digest password p salt) in
      let salted = env.encode salt ++ ("$" ++ hash) in
      let from_parameters = print_parameters p ++ ("$" ++ salted) in
      let from_version = "v=19" ++ ("$" ++ from_parameters) in
      sym (ap (split b'$') (nil-append _))
      ∙ rw (
        split-part b'$' "" _ ("argon2id" ++ ("$" ++ from_version)) refl refl,
        split-part b'$' "argon2id" _ from_version refl refl,
        split-part b'$' "v=19" _ from_parameters refl refl,
        split-part b'$' (print_parameters p) _ salted (print_parameters-undollared p) refl,
        split-part b'$' (env.encode salt) _ hash (law.undollared salt) refl,
        split_whole b'$' hash (law.undollared _),
      )

  checked_parameters-usable :
      (password : String) (p : PasswordParameters) (salt : String)
      → IsUsable p
      → count salt ≡ p.salt_length
      → checked_parameters env (p.memory, p.iterations, p.parallelism) salt (digest password p salt)
        ≡ ok (p, salt, digest password p salt)
  unfolding checked_parameters
  checked_parameters-usable password p salt k n =
      ground (arith, law.keyed password salt p.iterations p.memory p.parallelism p.key_length)

  parse-encoded_hash :
      (password : String) (p : PasswordParameters) (salt : String)
      → IsUsable p
      → count salt ≡ p.salt_length
      → parse_password_hash env (encoded_hash password p salt)
        ≡ ok (p, salt, digest password p salt)
  unfolding parse_password_hash parse_parts read_parameters decoded
  parse-encoded_hash password p salt k n =
      rw
        (
          split-encoded_hash password p salt,
          scan_parameters-print_parameters p k,
          law.decoded salt,
          law.decoded (digest password p salt),
        )
        (checked_parameters-usable password p salt k n)

  hash_password-ok :
      (password : String) (p : PasswordParameters) {encoded : String}
      → hash_password env password p ≡ ok encoded
      → (salt : String) × (env.random p.salt_length ≡ ok salt)
        × (encoded_hash password p salt ≡ encoded)
  unfolding hash_password
  hash_password-ok password p {encoded} h = elim (Bool-cases (ltb (len password) 12)) [
    | inl short ↦ cc (rw short at h)
    | inr long ↦ go (env.random p.salt_length) refl (rw long at h)
  ]
    where
      go :
          (r : Result String)
          → env.random p.salt_length ≡ r
          → (wrapped "generate password salt" r >>= λ salt. ok (encoded_hash password p salt))
            ≡ ok encoded
          → (salt : String) × (env.random p.salt_length ≡ ok salt)
            × (encoded_hash password p salt ≡ encoded)
      go (err x) k e = cc
      go (ok salt) k e = (salt, k, cc e)

  -- A hash of `HashPassword` is verified: under usable parameters every password is compared with the
  -- one that was hashed by their Argon2id keys under the drawn salt, without an error; the hashed
  -- password is valid, and a valid one needs upgrading exactly if the current parameters differ.
  pub verify-hash_password :
      (password : String) (p : PasswordParameters) {encoded : String}
      → IsUsable p
      → hash_password env password p ≡ ok encoded
      → (salt : String) × (env.random p.salt_length ≡ ok salt)
        × ((other : String) (current : PasswordParameters)
            → verify_password env other encoded current
              ≡ ok (
                digest other p salt == digest password p salt,
                digest other p salt == digest password p salt && not (same_parameters p current),
              ))
        × ((current : PasswordParameters)
            → verify_password env password encoded current
              ≡ ok (true, not (same_parameters p current)))
  unfolding verify_password compare_password
  verify-hash_password password p {encoded} k h =
      let (salt, drawn, same) = hash_password-ok password p h in
      let parsed : parse_password_hash env encoded ≡ ok (p, salt, digest password p salt) =
        subst (λ x. parse_password_hash env x ≡ ok (p, salt, digest password p salt)) same
          (parse-encoded_hash password p salt k (law.salted _ salt drawn)) in
      let long : count (digest password p salt) % 2 ^ 32 ≡ p.key_length =
        omega (arith, law.keyed password salt p.iterations p.memory p.parallelism p.key_length) in
      (
        salt,
        drawn,
        λ other current. rw (parsed, long),
        λ current. rw (parsed, long, eq_refl (digest password p salt)),
      )
