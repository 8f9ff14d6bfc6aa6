-- ===== src/Config.antt =====
-- backend/internal/platform/config/config.go. `getenv` is os.Getenv, and `parse_duration` is
-- time.ParseDuration, in nanoseconds. A text of the environment is a text of its bytes, one character
-- for a byte, so that the length of the signing key is in bytes; `trim_space` reads a character as a
-- code point, so for the bytes 0x85 and 0xA0 at an end of a text it differs from strings.TrimSpace,
-- which reads UTF-8. A duration that is admitted is positive.
pub mod Validated
use Prim.Native.String.{◌++◌, count}
use Prim.Native.Char.{code}
use modura.Prelude.{
  ℕ, ℤ, pos, negsuc, zero, suc, ◌*◌, ◌||◌, String, Bool, true, false, Option, none, some, ◌==◌,
  blank, ltb, nat_eq, if◌then◌else◌,
}
use modura.Errors.{message, wrap, driver, Result, ok, err, ◌>>=◌}
use modura.Text.{trim_space}
use modura.Text.Decimal.{read_digits}
use modura.Settings.Values.{is_int64}

pub record HttpConfig : Type 0 where
  pub address : String
  pub read_timeout : ℕ
  pub write_timeout : ℕ
  pub idle_timeout : ℕ
  pub shutdown_timeout : ℕ
  pub max_header_bytes : ℕ
  pub cookie_secure : Bool

pub record AuthConfig : Type 0 where
  pub issuer : String
  pub audience : String
  pub platform_audience : String
  pub signing_key_id : String
  pub signing_key : String
  pub access_lifetime : ℕ
  pub refresh_lifetime : ℕ
  pub invitation_lifetime : ℕ

pub record Config : Type 0 where
  pub http : HttpConfig
  pub database_url : String
  pub auth : AuthConfig

abbrev seconds : ℕ → ℕ
seconds n = n * 1000000000

-- strconv.ParseBool
unfoldable pub parse_bool : String → Option Bool
parse_bool s =
    if s == "1" || s == "t" || s == "T" || s == "true" || s == "TRUE" || s == "True"
    then some true
    else if s == "0" || s == "f" || s == "F" || s == "false" || s == "FALSE" || s == "False"
    then some false
    else none

abbrev minus : ℕ → ℤ
minus zero = pos 0
minus (suc n) = negsuc n

-- The number of a text that strconv.Atoi admits.
abbrev signed_number : String → ℤ
signed_number String.[] = pos 0
signed_number (String.◌∷◌ c s) =
    if nat_eq (code c) b'-'
    then minus (read_digits 0 s).0
    else if nat_eq (code c) b'+'
    then pos (read_digits 0 s).0
    else pos (read_digits 0 (String.◌∷◌ c s)).0

-- strconv.Atoi
unfoldable pub parse_int : String → Option ℤ
parse_int s = if is_int64 s then some (signed_number s) else none

-- `if err != nil { return fmt.Errorf("parse %s: %w", name, err) }`
abbrev parsed_or : {A : Type 0} → String → Option A → Result A
parsed_or name none = err (wrap ("parse " ++ name) driver)
parsed_or name (some a) = ok a

abbrev positive : String → ℤ → Result ℕ
positive name (pos zero) = err (message (name ++ " must be positive"))
positive name (pos (suc n)) = ok (suc n)
positive name (negsuc n) = err (message (name ++ " must be positive"))

module _ (getenv : String → String) (parse_duration : String → Option ℤ) where
  -- envOrDefault
  unfoldable pub env_or_default : String → String → String
  env_or_default name fallback = if blank (getenv name) then fallback else getenv name

  unfoldable pub boolean : String → Bool → Result Bool
  boolean name fallback =
      if blank (getenv name) then ok fallback else parsed_or name (parse_bool (getenv name))

  unfoldable pub duration : String → ℕ → Result ℕ
  duration name fallback =
      if blank (getenv name)
      then ok fallback
      else parsed_or name (parse_duration (getenv name)) >>= positive name

  unfoldable pub integer : String → ℕ → Result ℕ
  integer name fallback =
      if blank (getenv name)
      then ok fallback
      else parsed_or name (parse_int (getenv name)) >>= positive name

  http_from_env : Result HttpConfig
  unfolding duration integer boolean env_or_default
  http_from_env = do
    read ← duration "MODURA_HTTP_READ_TIMEOUT" (seconds 10)
    write ← duration "MODURA_HTTP_WRITE_TIMEOUT" (seconds 15)
    idle ← duration "MODURA_HTTP_IDLE_TIMEOUT" (seconds 60)
    shutdown ← duration "MODURA_HTTP_SHUTDOWN_TIMEOUT" (seconds 10)
    max_header ← integer "MODURA_HTTP_MAX_HEADER_BYTES" 1048576
    secure ← boolean "MODURA_AUTH_COOKIE_SECURE" true
    ok (record {
      address = env_or_default "MODURA_HTTP_ADDRESS" ":8080";
      read_timeout = read;
      write_timeout = write;
      idle_timeout = idle;
      shutdown_timeout = shutdown;
      max_header_bytes = max_header;
      cookie_secure = secure;
    })

  auth_from_env : Result AuthConfig
  unfolding duration env_or_default
  auth_from_env = do
    access ← duration "MODURA_AUTH_ACCESS_LIFETIME" (seconds 300)
    refresh ← duration "MODURA_AUTH_REFRESH_LIFETIME" (seconds 86400)
    invitation ← duration "MODURA_AUTH_INVITATION_LIFETIME" (seconds 86400)
    ok (record {
      issuer = env_or_default "MODURA_AUTH_ISSUER" "modura";
      audience = env_or_default "MODURA_AUTH_AUDIENCE" "modura-admin";
      platform_audience = env_or_default "MODURA_PLATFORM_AUTH_AUDIENCE" "modura-platform";
      signing_key_id = env_or_default "MODURA_AUTH_SIGNING_KEY_ID" "primary";
      signing_key = getenv "MODURA_AUTH_SIGNING_KEY";
      access_lifetime = access;
      refresh_lifetime = refresh;
      invitation_lifetime = invitation;
    })

  abbrev pub with_auth : HttpConfig → AuthConfig → Result Config
  with_auth http auth = ok (record {
    http = http;
    database_url = trim_space (getenv "MODURA_DATABASE_URL");
    auth = auth;
  })

  -- The database and the authentication, after the HTTP server.
  rest_from_env : HttpConfig → Result Config
  unfolding auth_from_env
  rest_from_env http =
      if blank (trim_space (getenv "MODURA_DATABASE_URL"))
      then err (message "MODURA_DATABASE_URL is required")
      else if ltb (count (getenv "MODURA_AUTH_SIGNING_KEY")) 32
      then err (message "MODURA_AUTH_SIGNING_KEY must contain at least 32 bytes")
      else auth_from_env >>= with_auth http

  -- FromEnv
  unfoldable pub from_env : Result Config
  unfolding http_from_env rest_from_env
  from_env = http_from_env >>= rest_from_env
