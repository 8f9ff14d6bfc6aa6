-- ===== src/Identity/Token.antt =====
-- backend/internal/modules/identity/token.go: access tokens. Bytes are texts. What the code takes from
-- encoding/base64, encoding/json and crypto/hmac is a record of functions; a time is the number of
-- nanoseconds since 1970, and the numbers of the claims are `int64`s within the range of time.Time.
pub mod Signing
use Prim.Native.String.{◌++◌, count}
use modura.Prelude.{
  ℕ, ℤ, pos, negsuc, ◌+◌, ◌*◌, ◌/◌, String, Bool, true, false, not, ◌&&◌, ◌||◌, ◌==◌, Option, none,
  some, List, [], ◌∷◌, blank, ltb, nat_eq, if◌then◌else◌,
}
use modura.Errors.{
  Error, IdentityError, identity, message, Result, ok, err, wrapped, or_else, ◌>>=◌,
}
use modura.Text.Split.{split}
use modura.Identity.Types.{Actor}

pub record TokenHeader : Type 0 where
  pub algorithm : String
  pub typ : String
  pub key_id : String

pub record AccessTokenClaims : Type 0 where
  pub issuer : String
  pub audience : String
  pub principal_type : String
  pub subject : String
  pub tenant_id : String
  pub session_id : String
  pub token_id : String
  pub security_version : ℤ
  pub issued_at : ℤ
  pub expires_at : ℤ

-- `decode` returns the bytes before an error and whether there was none.
pub record Encodings : Type 0 where
  pub marshal_header : TokenHeader → Result String
  pub marshal_claims : AccessTokenClaims → Result String
  pub unmarshal_header : String → Result TokenHeader
  pub unmarshal_claims : String → Result AccessTokenClaims
  pub encode : String → String
  pub decode : String → String × Bool
  pub hmac : String → String → String

pub record AccessTokenSigner : Type 0 where
  pub issuer : String
  pub audience : String
  pub key_id : String
  pub key : String
  pub lifetime : ℕ

pub record AccessTokenVerifier : Type 0 where
  pub issuer : String
  pub audience : String
  pub keys : String → Option String
  pub clock_skew : ℕ

abbrev pub nanoseconds : ℕ
nanoseconds = 1000000000

-- time.Unix(s, 0).Add(skew) is before `now`, and after `now.Add(skew)`.
abbrev pub ended_before : ℤ → ℕ → ℕ → Bool
ended_before (pos s) skew now = ltb (s * nanoseconds + skew) now
ended_before (negsuc s) skew now = ltb skew (now + (s + 1) * nanoseconds)

abbrev pub starts_after : ℤ → ℕ → Bool
starts_after (pos s) now = ltb now (s * nanoseconds)
starts_after (negsuc s) now = false

-- a <= b
abbrev pub int_le : ℤ → ℤ → Bool
int_le (pos a) (pos b) = not (ltb b a)
int_le (pos a) (negsuc b) = false
int_le (negsuc a) (pos b) = true
int_le (negsuc a) (negsuc b) = not (ltb a b)

-- A number that is not negative; `Verify` lets no other security version pass.
abbrev pub natural : ℤ → ℕ
natural (pos n) = n
natural (negsuc n) = 0

-- NewAccessTokenSigner
unfoldable pub new_access_token_signer :
    String → String → String → String → ℕ → Result AccessTokenSigner
new_access_token_signer issuer audience key_id key lifetime =
    if blank issuer || blank audience || blank key_id || ltb (count key) 32 || nat_eq lifetime 0
    then err (message "invalid access token configuration")
    else ok (record {
      issuer = issuer;
      audience = audience;
      key_id = key_id;
      key = key;
      lifetime = lifetime;
    })

abbrev pub header_of : AccessTokenSigner → TokenHeader
header_of s = record { algorithm = "HS256"; typ = "JWT"; key_id = s.key_id }

-- validPrincipal
unfoldable pub valid_principal : AccessTokenClaims → Bool
valid_principal c =
    (c.principal_type == "tenant" && not (blank c.tenant_id))
    || (c.principal_type == "platform" && blank c.tenant_id)

unfoldable pub valid_claims : AccessTokenVerifier → AccessTokenClaims → Bool
unfolding valid_principal
valid_claims v c =
    c.issuer == v.issuer
    && c.audience == v.audience
    && valid_principal c
    && not (blank c.subject)
    && not (blank c.session_id)
    && not (blank c.token_id)
    && not (int_le c.security_version (pos 0))

abbrev pub invalid_token : Error
invalid_token = identity IdentityError.invalid_token

module _ (enc : Encodings) where
  unfoldable pub signed : AccessTokenSigner → AccessTokenClaims → Result String
  signed s claims = do
    header ← wrapped "marshal token header" (enc.marshal_header (header_of s))
    payload ← wrapped "marshal token claims" (enc.marshal_claims claims)
    let unsigned = enc.encode header ++ ("." ++ enc.encode payload)
    ok (unsigned ++ ("." ++ enc.encode (enc.hmac s.key unsigned)))

  abbrev pub tenant_claims : AccessTokenSigner → Actor → String → ℕ → ℕ → AccessTokenClaims
  tenant_claims s actor token_id version now = record {
    issuer = s.issuer;
    audience = s.audience;
    principal_type = "tenant";
    subject = actor.user_id;
    tenant_id = actor.tenant_id;
    session_id = actor.session_id;
    token_id = token_id;
    security_version = pos version;
    issued_at = pos (now / nanoseconds);
    expires_at = pos ((now + s.lifetime) / nanoseconds);
  }

  -- Sign
  unfoldable pub sign : AccessTokenSigner → Actor → String → ℕ → ℕ → Result String
  unfolding signed
  sign s actor token_id version now = signed s (tenant_claims s actor token_id version now)

  abbrev pub platform_claims :
      AccessTokenSigner → String → String → String → ℕ → ℕ → AccessTokenClaims
  platform_claims s subject session token_id version now = record {
    issuer = s.issuer;
    audience = s.audience;
    principal_type = "platform";
    subject = subject;
    tenant_id = "";
    session_id = session;
    token_id = token_id;
    security_version = pos version;
    issued_at = pos (now / nanoseconds);
    expires_at = pos ((now + s.lifetime) / nanoseconds);
  }

  -- SignPlatform
  unfoldable pub sign_platform :
      AccessTokenSigner → String → String → String → ℕ → ℕ → Result String
  unfolding signed
  sign_platform s subject session token_id version now =
      signed s (platform_claims s subject session token_id version now)

  -- decodeTokenJSON
  unfoldable pub decode_token_json : {A : Type 0} → (String → Result A) → String → Result A
  decode_token_json unmarshal value =
      if (enc.decode value).1
      then unmarshal (enc.decode value).0
      else err (message "illegal base64 data")

  check_times : AccessTokenVerifier → AccessTokenClaims → ℕ → Result AccessTokenClaims
  check_times v c now =
      if ended_before c.expires_at v.clock_skew now
      then err (identity IdentityError.expired_token)
      else if starts_after c.issued_at (now + v.clock_skew) || int_le c.expires_at c.issued_at
      then err invalid_token
      else ok c

  check_claims : AccessTokenVerifier → ℕ → AccessTokenClaims → Result AccessTokenClaims
  unfolding check_times
  check_claims v now c = if valid_claims v c then check_times v c now else err invalid_token

  check_key :
      AccessTokenVerifier → String → String → String → ℕ → Option String → Result AccessTokenClaims
  unfolding check_claims decode_token_json
  check_key v header payload signature now none = err invalid_token
  check_key v header payload signature now (some key) =
      if ltb (count key) 32
        || not (enc.hmac key (header ++ ("." ++ payload)) == (enc.decode signature).0)
      then err invalid_token
      else (do
        c ← or_else invalid_token (decode_token_json enc.unmarshal_claims payload)
        check_claims v now c)

  check_header :
      AccessTokenVerifier → String → String → String → ℕ → TokenHeader → Result AccessTokenClaims
  unfolding check_key
  check_header v header payload signature now h =
      if not (h.algorithm == "HS256") || not (h.typ == "JWT")
      then err invalid_token
      else check_key v header payload signature now (v.keys h.key_id)

  check_parts : AccessTokenVerifier → ℕ → List String → Result AccessTokenClaims
  unfolding check_header decode_token_json
  check_parts v now (header ∷ payload ∷ signature ∷ []) = do
    h ← or_else invalid_token (decode_token_json enc.unmarshal_header header)
    check_header v header payload signature now h
  check_parts v now _ = err invalid_token

  -- Verify
  unfoldable pub verify : AccessTokenVerifier → String → ℕ → Result AccessTokenClaims
  unfolding check_parts split
  verify v token now = check_parts v now (split b'.' token)

  -- NewOpaqueToken, for which `random n` reads n random bytes.
  unfoldable pub new_opaque_token : (ℕ → Result String) → ℕ → Result String
  new_opaque_token random bytes =
      if ltb bytes 32
      then err (message "opaque token requires at least 32 random bytes")
      else (do value ← wrapped "generate opaque token" (random bytes); ok (enc.encode value))
