-- ===== src/Examples/Configured.antt =====
-- A configuration from the environment.
use modura.Prelude.{
  ℕ, ◌*◌, String, true, false, Option, none, some, ℤ, pos, ◌≡◌, refl, ◌==◌, blank, if◌then◌else◌,
}
use modura.Errors.{ok}
use modura.Text.{trim_space}
use modura.Config.{Config, from_env, duration, integer, boolean, env_or_default}
use modura.Config.Validated.{IsServing, IsSigning, signer_of, from_env-starts}
use modura.Identity.Token.{new_access_token_signer}

abbrev getenv : String → String
getenv name =
    if name == "MODURA_DATABASE_URL"
    then " postgres://db"
    else if name == "MODURA_AUTH_SIGNING_KEY"
    then "0123456789abcdef0123456789abcdef"
    else if name == "MODURA_AUTH_ACCESS_LIFETIME"
    then "1m"
    else ""

abbrev parse_duration : String → Option ℤ
parse_duration s = if s == "1m" then some (pos 60000000000) else none

abbrev second : ℕ
second = 1000000000

abbrev config : Config
config = record {
  http = record {
    address = ":8080";
    read_timeout = 10 * second;
    write_timeout = 15 * second;
    idle_timeout = 60 * second;
    shutdown_timeout = 10 * second;
    max_header_bytes = 1048576;
    cookie_secure = true;
  };
  database_url = "postgres://db";
  auth = record {
    issuer = "modura";
    audience = "modura-admin";
    platform_audience = "modura-platform";
    signing_key_id = "primary";
    signing_key = "0123456789abcdef0123456789abcdef";
    access_lifetime = 60 * second;
    refresh_lifetime = 86400 * second;
    invitation_lifetime = 86400 * second;
  };
}

configuring : from_env getenv parse_duration ≡ ok config
unfolding from_env duration integer boolean env_or_default trim_space
configuring = refl

from_env-starts_example :
    (blank config.database_url ≡ false)
    × IsServing getenv parse_duration config.http
    × IsSigning getenv parse_duration config.auth
    × (new_access_token_signer config.auth.issuer config.auth.audience config.auth.signing_key_id
          config.auth.signing_key config.auth.access_lifetime
        ≡ ok (signer_of getenv parse_duration config.auth config.auth.audience))
    × (new_access_token_signer config.auth.issuer config.auth.platform_audience
          config.auth.signing_key_id config.auth.signing_key config.auth.access_lifetime
        ≡ ok (signer_of getenv parse_duration config.auth config.auth.platform_audience))
from_env-starts_example = from_env-starts getenv parse_duration configuring
