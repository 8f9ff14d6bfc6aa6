-- ===== src/Examples/Login.antt =====
-- Runs of the identity service.
use modura.Prelude.{
  Char, pos, any, ◌&&◌, false, ◌≡◌, ◌≢◌, refl, find, update_where, count_where, unique, ◌==◌,
}
use modura.Text.{trim_space, map_runes}
use modura.Errors.{ok, err}
use modura.Database.{Db}
use modura.Database.Constraints.{constraints}
use modura.Database.Tx.{
  run, control, query, exec_or, ◌>>=◌, pure, fail, and_then, on_error, labelled_call,
}
use modura.Identity.Types.{Actor, Tokens}
use modura.Identity.Rows.{joined}
use modura.Identity.Sessions
use modura.Identity.Accounts
use modura.Identity.Service.{
  Environment, login, refresh, logout_all, authenticate_access, invalid_credentials,
}
use modura.Identity.Service.Login.{HasStarted, login_sound}
use modura.Identity.Service.Hiding.{Hidden, is_asked, opens, login_hides}
use modura.Identity.Service.Refreshing.{refresh_once}
use modura.Examples.{up, sample}

abbrev same_rune : Char → Char
same_rune c = c

abbrev pub env : Environment
env = record {
  now = λ k. 50;
  new_id = λ k at. ok "n1";
  new_secret = ok "fresh";
  hash_token = λ s. s;
  verify_password = λ p h. ok (h == p, false);
  hash_password = λ p. ok p;
  sign = λ a id v at. ok a.user_id;
  verify_token = λ s at. ok (record {
    issuer = "modura";
    audience = "api";
    principal_type = "tenant";
    session_id = "s1";
    tenant_id = "t1";
    subject = s;
    token_id = "k1";
    security_version = pos 1;
    issued_at = pos 0;
    expires_at = pos 1;
  });
  access_lifetime = 10;
  refresh_lifetime = 100;
}

abbrev given : Tokens
given = record {
  access_token = "u1";
  refresh_token = "fresh";
  expires_in = 10;
  refresh_expires_in = 100;
}

abbrev logged_in : Db
logged_in = (login same_rune env up " acme" "ann " "pw1" 50 sample).1

ann_logs_in : login same_rune env up " acme" "ann " "pw1" 50 sample ≡ (ok given, logged_in)
unfolding login Accounts.find_active_account Sessions.create_session run control query exec_or ◌>>=◌
    pure fail and_then on_error labelled_call find joined trim_space map_runes update_where
    count_where constraints unique
ann_logs_in = refl

login_sound_example : HasStarted same_rune env up " acme" "ann " "pw1" 50 sample given logged_in
login_sound_example =
    login_sound same_rune env up " acme" "ann " "pw1" 50 sample given logged_in ann_logs_in

-- A wrong password, and a user that is not there.
bob_refused :
    login same_rune env up "acme" "bob" "pw1" 50 sample ≡ (err invalid_credentials, sample)
unfolding login Accounts.find_active_account run query ◌>>=◌ pure fail and_then on_error find
    trim_space map_runes
bob_refused = refl

no_such_hash :
    any
      (λ u.
        is_asked same_rune env up "acme" "bob" "pw1" 50 sample u
        && opens (env.verify_password "pw1") u.password_hash)
      sample.users
    ≡ false
unfolding trim_space map_runes
no_such_hash = refl

login_hides_example :
    (sample ≡ sample)
    × Hidden same_rune env up "acme" "bob" "pw1" 50 sample (err invalid_credentials)
login_hides_example =
    login_hides same_rune env up "acme" "bob" "pw1" 50 sample no_such_hash bob_refused

zoe_refused :
    login same_rune env up "acme" "zoe" "pw1" 50 sample ≡ (err invalid_credentials, sample)
unfolding login Accounts.find_active_account run query ◌>>=◌ pure fail and_then on_error find
    trim_space map_runes
zoe_refused = refl

abbrev refreshed : Db
refreshed = (refresh same_rune env up "r1" sample).1

refreshing : refresh same_rune env up "r1" sample ≡ (ok given, refreshed)
unfolding refresh Sessions.rotate_session run control query exec_or ◌>>=◌ pure fail and_then
    on_error labelled_call find joined update_where count_where constraints unique
refreshing = refl

refresh_once_example : refresh same_rune env up "r1" refreshed ≢ (ok given, refreshed)
refresh_once_example = refresh_once same_rune env env up up "r1" sample refl refreshing

abbrev ann : Actor
ann = record { tenant_id = "t1"; user_id = "u1"; session_id = "s1" }

abbrev logged_out : Db
logged_out = (logout_all same_rune env up ann sample).1

logging_out : logout_all same_rune env up ann sample ≡ (ok tt, logged_out)
unfolding logout_all Sessions.revoke_all_sessions run exec_or ◌>>=◌ pure update_where count_where
    constraints unique
logging_out = refl

ann_authenticated : authenticate_access same_rune env up "u1" sample ≡ (ok ann, sample)
unfolding authenticate_access Sessions.validate_session run query ◌>>=◌ pure fail and_then on_error
    labelled_call find joined
ann_authenticated = refl
