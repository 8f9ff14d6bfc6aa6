-- ===== src/Examples/Tokens.antt =====
-- Runs on access tokens.
use modura.Prelude.{
  ℕ, String, Char, none, some, ◌≡◌, ◌≢◌, refl, ◌+◌, ◌*◌, ◌/◌, ◌≤◌, ◌<◌, ◌==◌, arith, if◌then◌else◌,
}
use modura.Errors.{IdentityError, identity, Result, ok, err}
use modura.Database.{Db}
use modura.Identity.Types.{Actor}
use modura.Identity.Password.{default_password_parameters}
use modura.Identity.Service
use modura.Identity.Token.{
  AccessTokenSigner, AccessTokenVerifier, nanoseconds, sign, sign_platform, signed, tenant_claims,
  verify,
}
use modura.Identity.Token.Signing.{IsIdentified, verify-sign}
use modura.PlatformAdmin.{PlatformActor}
use modura.PlatformAdmin.Service.{PlatformEnvironment, authenticate_access}
use modura.PlatformAdmin.Service.Separation.{tokens_apart}
use modura.Examples.{up, sample}
use modura.Examples.Encoding.{encodings, encodings-IsFaithful}
use modura.Examples.Login
use modura.Examples.Passwords.{hashing}

abbrev pub same_rune : Char → Char
same_rune c = c

abbrev secret : String
secret = "0123456789abcdef0123456789abcdef"

abbrev pub signer : AccessTokenSigner
signer = record {
  issuer = "modura";
  audience = "api";
  key_id = "k1";
  key = secret;
  lifetime = 900 * nanoseconds;
}

abbrev pub verifier : AccessTokenVerifier
verifier = record {
  issuer = "modura";
  audience = "api";
  keys = λ k. if k == "k1" then some secret else none;
  clock_skew = 30 * nanoseconds;
}

abbrev ann : Actor
ann = record { tenant_id = "t1"; user_id = "u1"; session_id = "s1" }

ann-IsIdentified : IsIdentified encodings encodings-IsFaithful ann "j1" 1
ann-IsIdentified = record {
  tenant = refl;
  user = refl;
  session = refl;
  token = refl;
  versioned = omega arith;
}

abbrev pub token_of : Result String → String
token_of (ok s) = s
token_of (err e) = ""

abbrev token : String
token = token_of (sign encodings signer ann "j1" 1 5000000000)

signing : sign encodings signer ann "j1" 1 5000000000 ≡ ok token
unfolding sign signed
signing = refl

verify-sign_example :
    ((later : ℕ)
      → 5000000000 / nanoseconds * nanoseconds ≤ later + verifier.clock_skew
      → later ≤ (5000000000 + signer.lifetime) / nanoseconds * nanoseconds + verifier.clock_skew
      → verify encodings verifier token later
        ≡ ok (tenant_claims encodings signer ann "j1" 1 5000000000))
    × ((later : ℕ)
        → (5000000000 + signer.lifetime) / nanoseconds * nanoseconds + verifier.clock_skew < later
        → verify encodings verifier token later ≡ err (identity IdentityError.expired_token))
verify-sign_example =
    verify-sign encodings encodings-IsFaithful signer verifier ann "j1" 1 5000000000 refl
      (omega arith) refl refl (omega arith) ann-IsIdentified signing

abbrev pub platform : PlatformEnvironment
platform = record {
  now = λ k. 5000000000;
  new_id = λ k at. ok "n1";
  new_secret = ok "fresh";
  hash_token = λ s. s;
  hashing = hashing;
  password = default_password_parameters;
  enc = encodings;
  signer = signer;
  verifier = verifier;
  refresh_lifetime = 100;
}

abbrev tenants : Service.Environment
tenants = record Login.env { verify_token = verify encodings verifier }

tokens_apart_example :
    ((actor : Actor) (token_id token : String) (version now : ℕ) (a : PlatformActor) (db' : Db)
      → sign encodings signer actor token_id version now ≡ ok token
      → authenticate_access same_rune platform up token sample ≢ (ok a, db'))
    × ((subject session token_id token : String) (version now : ℕ) (a : Actor) (db' : Db)
        → sign_platform encodings signer subject session token_id version now ≡ ok token
        → Service.authenticate_access same_rune tenants up token sample ≢ (ok a, db'))
tokens_apart_example =
    tokens_apart same_rune platform tenants verifier signer up sample encodings-IsFaithful refl refl
