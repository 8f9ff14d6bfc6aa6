-- ===== src/Identity/Service.antt =====
-- backend/internal/modules/identity/service.go: the use cases of authentication over the store. What
-- the service takes from elsewhere is a record of functions: the clock, the generators, the digest
-- of opaque tokens (SHA-256), the hashing of passwords (Argon2id) and the access tokens.
pub mod Login
pub mod Hiding
pub mod Admission
pub mod Starting
pub mod Refreshing
use modura.Prelude.{
  ℕ, ◌+◌, String, Char, Bool, true, false, not, ◌&&◌, ◌||◌, ◌==◌, Option, none, some, blank, ltb,
  nat_eq, if◌then◌else◌,
}
use modura.Errors.{Error, IdentityError, identity, message, wrap, cause, Result, ok, err}
use modura.Text.{trim_space, map_runes}
use modura.Database.{OneTimePurpose, Db}
use modura.Database.Tx.{
  Faults, Tx, Op, run, pure, fail, labelled, labelled_call, and_then, on_error, refuse, lift,
}
use modura.Identity.Types.{Actor, Account, Session, NewSession, Tokens, TenantProvisioning}
use modura.Identity.Token.{AccessTokenClaims, natural}
use modura.Identity.Sessions
use modura.Identity.Accounts

-- `now k` and `new_id k` are the k-th reading of the clock and the k-th identifier in a call.
pub record Environment : Type 0 where
  pub now : ℕ → ℕ
  pub new_id : ℕ → ℕ → Result String
  pub new_secret : Result String
  pub hash_token : String → String
  -- VerifyPassword with the configured parameters: valid, and in need of a new hash.
  pub verify_password : String → String → Result (Bool × Bool)
  pub hash_password : String → Result String
  -- Sign: actor, token id, security version and time.
  pub sign : Actor → String → ℕ → ℕ → Result String
  pub verify_token : String → ℕ → Result AccessTokenClaims
  pub access_lifetime : ℕ
  pub refresh_lifetime : ℕ

abbrev pub invalid_credentials : Error
invalid_credentials = identity IdentityError.invalid_credentials

abbrev pub is_hidden : Error → Bool
is_hidden (identity IdentityError.invalid_credentials) = true
is_hidden (identity IdentityError.inactive_tenant) = true
is_hidden (identity IdentityError.inactive_user) = true
is_hidden _ = false

login_error : Error → Error
login_error e = if is_hidden (cause e) then invalid_credentials else wrap "find login account" e

abbrev is_token_error : Error → Bool
is_token_error (identity IdentityError.invalid_token) = true
is_token_error (identity IdentityError.expired_token) = true
is_token_error _ = false

abbrev is_refresh_error : Error → Bool
is_refresh_error (identity IdentityError.refresh_reuse) = true
is_refresh_error e = is_token_error e

abbrev is_change_error : Error → Bool
is_change_error (identity IdentityError.invalid_credentials) = true
is_change_error (identity IdentityError.invalid_token) = true
is_change_error _ = false

-- `if errors.Is(err, …) { return err }; return fmt.Errorf("…: %w", err)`
abbrev pub unless_known : (Error → Bool) → String → Error → Error
unless_known known s e = if known (cause e) then e else wrap s e

module _ (lower : Char → Char) (env : Environment) (down : Faults) where
  -- NormalizeLogin
  abbrev pub normalize_login : String → String
  normalize_login s = map_runes lower (trim_space s)

  -- signAccess, for which `k` identifiers were generated in the call before.
  unfoldable pub sign_access : ℕ → Session → ℕ → Op String
  sign_access k x now =
      and_then (labelled_call "generate access token ID" (lift (env.new_id k now))) λ token_id.
        labelled_call "sign access token" (
          lift (
            env.sign (record { tenant_id = x.tenant_id; user_id = x.user_id; session_id = x.id })
              token_id x.security_version now))

  abbrev pub tokens_of : String → String → Tokens
  tokens_of access secret = record {
    access_token = access;
    refresh_token = secret;
    expires_in = env.access_lifetime;
    refresh_expires_in = env.refresh_lifetime;
  }

  abbrev pub first_session : Account → String → String → String → ℕ → NewSession
  first_session a id family secret now = record {
    session = record {
      id = id;
      tenant_id = a.tenant_id;
      user_id = a.user_id;
      security_version = a.security_version;
    };
    family_id = family;
    refresh_hash = env.hash_token secret;
    created_at = now;
    expires_at = now + env.refresh_lifetime;
  }

  -- startSession
  unfoldable pub start_session : Account → Op Tokens
  unfolding sign_access
  start_session a =
      and_then (labelled_call "generate session ID" (lift (env.new_id 0 (env.now 0)))) λ id.
        and_then (labelled_call "generate session family ID" (lift (env.new_id 1 (env.now 0))))
          λ family.
            and_then (labelled_call "generate refresh token" (lift env.new_secret)) λ secret.
              and_then
                (labelled_call "create refresh session"
                  (Sessions.create_session down (first_session a id family secret (env.now 0))))
                λ u.
                  and_then
                    (sign_access 2 (first_session a id family secret (env.now 0)).session
                      (env.now 0))
                    λ access. lift (ok (tokens_of access secret))

  rehash : Account → String → ℕ → Op (Unit {0})
  rehash a password server_now =
      and_then (labelled_call "rehash password" (lift (env.hash_password password))) λ hash.
        labelled_call "store password rehash"
          (Accounts.update_password_hash down a.tenant_id a.user_id hash server_now)

  after_verify : Account → String → ℕ → Result (Bool × Bool) → Op Tokens
  unfolding rehash start_session
  after_verify a password server_now (err e) = refuse invalid_credentials
  after_verify a password server_now (ok (valid, needs_rehash)) =
      if not valid
      then refuse invalid_credentials
      else if needs_rehash
      then and_then (rehash a password server_now) (λ u. start_session a)
      else start_session a

  -- Login. `server_now` is the server's now() in the UPDATE of a hash.
  unfoldable pub login : String → String → String → ℕ → Op Tokens
  unfolding login_error after_verify
  login slug name password server_now =
      and_then
        (on_error login_error
          (Accounts.find_active_account down (normalize_login slug) (normalize_login name)))
        λ a. after_verify a password server_now (env.verify_password password a.password_hash)

  -- The tokens of a session that goes on under a new secret.
  continued : Session → String → Op Tokens
  unfolding sign_access
  continued x secret =
      and_then (sign_access 0 x (env.now 0)) λ access. lift (ok (tokens_of access secret))

  unfoldable pub refresh : String → Op Tokens
  unfolding continued
  refresh token =
      if blank token
      then refuse (identity IdentityError.invalid_token)
      else and_then (labelled_call "generate refresh token" (lift env.new_secret)) λ secret.
        and_then
          (on_error (unless_known is_refresh_error "rotate refresh session") (
            Sessions.rotate_session down (env.hash_token token) (env.hash_token secret) (env.now 0)
              (env.now 0 + env.refresh_lifetime)))
          λ x. continued x secret

  unfoldable pub logout : Actor → Op (Unit {0})
  logout a = Sessions.revoke_session down a.tenant_id a.user_id a.session_id "logout" (env.now 0)

  unfoldable pub logout_all : Actor → Op (Unit {0})
  logout_all a = Sessions.revoke_all_sessions down a.tenant_id a.user_id "logout_all" (env.now 0)

  abbrev pub session_of_claims : AccessTokenClaims → Session
  session_of_claims c = record {
    id = c.session_id;
    tenant_id = c.tenant_id;
    user_id = c.subject;
    security_version = natural c.security_version;
  }

  authenticate_claims : AccessTokenClaims → Op Actor
  authenticate_claims c =
      and_then
        (on_error (λ e. identity IdentityError.invalid_token)
          (Sessions.validate_session down (session_of_claims c) (env.now 1)))
        λ u.
          lift (
            ok (record { tenant_id = c.tenant_id; user_id = c.subject; session_id = c.session_id }))

  unfoldable pub authenticate_access : String → Op Actor
  unfolding authenticate_claims
  authenticate_access token =
      and_then
        (on_error (λ e. identity IdentityError.invalid_token)
          (lift (env.verify_token token (env.now 0))))
        authenticate_claims

  change_verified : Actor → String → String → String → Result (Bool × Bool) → Op Tokens
  unfolding continued
  change_verified actor stored new_password token (err e) = refuse invalid_credentials
  change_verified actor stored new_password token (ok (valid, needs_rehash)) =
      if not valid
      then refuse invalid_credentials
      else and_then (lift (env.hash_password new_password)) λ new_hash.
        and_then (labelled_call "generate refresh token" (lift env.new_secret)) λ secret.
          and_then
            (on_error (unless_known is_change_error "change password") (
              Accounts.change_password down actor stored new_hash (env.hash_token token)
                (env.hash_token secret) (env.now 0) (env.now 0 + env.refresh_lifetime)))
            λ x. continued x secret

  unfoldable pub change_password : Actor → String → String → String → Op Tokens
  unfolding change_verified
  change_password actor current new_password token =
      and_then (on_error (λ e. invalid_credentials) (Accounts.password_hash down actor)) λ stored.
        change_verified actor stored new_password token (env.verify_password current stored)

  unfoldable pub disable_account : String → String → String → Op (Unit {0})
  disable_account tenant user reason =
      if blank tenant || blank user || blank reason
      then refuse (message "invalid account disable request")
      else labelled_call "disable account"
          (Accounts.disable_account down tenant user reason (env.now 0))

  unfoldable pub unlock_account : String → String → Op (Unit {0})
  unlock_account tenant user =
      if blank tenant || blank user
      then refuse (message "invalid account unlock request")
      else labelled_call "unlock account" (Accounts.unlock_account down tenant user (env.now 0))

  -- `lifetime` is positive in the model's numbers unless it is zero.
  unfoldable pub issue_one_time_token : String → String → OneTimePurpose → ℕ → Op String
  issue_one_time_token tenant user purpose lifetime =
      if blank tenant || blank user || nat_eq lifetime 0
      then refuse (message "invalid one-time token request")
      else and_then (labelled_call "generate one-time token ID" (lift (env.new_id 0 (env.now 0))))
          λ id. and_then (labelled_call "generate one-time token" (lift env.new_secret)) λ secret.
            and_then
              (labelled_call "create one-time token" (
                Accounts.create_one_time_token down tenant user purpose id (env.hash_token secret)
                  (env.now 1) (env.now 1 + lifetime)))
              λ u. lift (ok secret)

  unfoldable pub consume_one_time_token : String → OneTimePurpose → String → Op (Unit {0})
  consume_one_time_token token purpose new_password =
      if blank token
      then refuse (identity IdentityError.invalid_token)
      else and_then (lift (env.hash_password new_password)) λ hash.
        on_error (unless_known is_token_error "consume one-time token")
          (Accounts.consume_one_time_token down (env.hash_token token) purpose hash (env.now 0))

  unfoldable pub provision_tenant : TenantProvisioning → Tx (Unit {0})
  provision_tenant p =
      if blank p.tenant_id
        || blank p.administrator_id
        || blank p.slug
        || blank p.normalized_username
      then fail (message "invalid tenant provisioning identity")
      else labelled "provision tenant identity" (Accounts.provision_tenant down p)

  unfoldable pub activate_tenant : String → ℕ → Tx (Unit {0})
  activate_tenant tenant now = labelled "activate tenant" (Accounts.activate_tenant down tenant now)
