-- ===== src/Examples/Passwords.antt =====
-- Runs on password hashes. The key of a password here is the password and the salt, cut or filled up
-- to the key length.
use modura.Prelude.{
  ℕ, suc, zero, String, true, false, not, ◌&&◌, ◌==◌, some, ◌≡◌, refl, ap, ◌∙◌, subst, arith,
}
use Prim.Native.String.{◌++◌, count}
use text.Mathlib.TextLemmas.{length-nil, length-cons}
use modura.Errors.{Result, ok, err}
use modura.Identity.Password.{
  PasswordParameters, Hashing, same_parameters, hash_password, verify_password,
  default_password_parameters,
}
use modura.Identity.Password.Format.{IsDocumented, IsUsable, digest, verify-hash_password}
use modura.Examples.Escapes.{escape, unescape, unescape-escape, escape-lacks}

-- The first n characters, then zeros.
abbrev cut : ℕ → String → String
cut zero s = ""
cut (suc n) String.[] = String.◌∷◌ "0" (cut n String.[])
cut (suc n) (String.◌∷◌ c s) = String.◌∷◌ c (cut n s)

abbrev pub hashing : Hashing
hashing = record {
  random = λ n. ok (cut n "salt");
  id_key = λ password salt t m p n. cut n (salt ++ password);
  encode = escape "$";
  decode = λ s. some (unescape "$" false s);
}

count-cut : (n : ℕ) (s : String) → count (cut n s) ≡ n
count-cut zero s = length-nil
count-cut (suc n) String.[] = length-cons "0" (cut n String.[]) ∙ ap suc (count-cut n String.[])
count-cut (suc n) (String.◌∷◌ c s) = length-cons c (cut n s) ∙ ap suc (count-cut n s)

hashing-IsDocumented : IsDocumented hashing
hashing-IsDocumented = record {
  decoded = λ x. ap (λ s. some s) (unescape-escape "$" x);
  undollared = λ x. escape-lacks "$" x refl refl;
  salted = λ n s e. subst (λ x. count x ≡ n) (cc e) (count-cut n "salt");
  keyed = λ password salt t m p n. count-cut n (salt ++ password);
}

default-IsUsable : IsUsable default_password_parameters
unfolding default_password_parameters
default-IsUsable = record {
  memory = (omega arith, omega arith);
  iterations = (omega arith, omega arith);
  parallelism = (omega arith, omega arith);
  salt_length = (omega arith, omega arith);
  key_length = (omega arith, omega arith);
}

abbrev text_of : Result String → String
text_of (ok s) = s
text_of (err e) = ""

abbrev encoded : String
encoded = text_of (hash_password hashing "correct horse" default_password_parameters)

hashed : hash_password hashing "correct horse" default_password_parameters ≡ ok encoded
unfolding hash_password default_password_parameters
hashed = refl

verify-hash_password_example :
    (salt : String) × (hashing.random default_password_parameters.salt_length ≡ ok salt)
    × ((other : String) (current : PasswordParameters)
        → verify_password hashing other encoded current
          ≡ ok (
            digest hashing hashing-IsDocumented other default_password_parameters salt
                == digest hashing hashing-IsDocumented "correct horse" default_password_parameters
                    salt,
            (digest hashing hashing-IsDocumented other default_password_parameters salt
                  == digest hashing hashing-IsDocumented "correct horse" default_password_parameters
                      salt)
                && not (same_parameters default_password_parameters current),
          ))
    × ((current : PasswordParameters)
        → verify_password hashing "correct horse" encoded current
          ≡ ok (true, not (same_parameters default_password_parameters current)))
verify-hash_password_example =
    verify-hash_password hashing hashing-IsDocumented "correct horse" default_password_parameters
      default-IsUsable hashed
