-- ===== src/PlatformAdmin/Service.antt =====
-- backend/internal/modules/platformadmin/service.go over its store, the password hashes and the access
-- tokens of the identity module. The clock, the generators and the digest of tokens are arguments.
pub mod Separation
use modura.Prelude.{ℕ, ◌+◌, String, Char, Bool, not, ◌||◌, ◌==◌, blank, if◌then◌else◌}
use modura.Errors.{Error, PlatformAdminError, platformadmin, message, Result, ok, err}
use modura.Text.{trim_space, map_runes}
use modura.Database.Tx.{Faults, Op, labelled_call, and_then, on_error, refuse, lift}
use modura.Identity.Types.{Tokens}
use modura.Identity.Password.{PasswordParameters, Hashing, hash_password, verify_password}
use modura.Identity.Token.{
  Encodings, AccessTokenSigner, AccessTokenVerifier, AccessTokenClaims, sign_platform, verify,
  natural,
}
use modura.PlatformAdmin
use modura.PlatformAdmin.{
  PlatformActor, PlatformAccount, PlatformSession, NewPlatformSession, invalid_token,
}

-- `now k` and `new_id k` are the k-th reading of the clock and the k-th identifier in a call.
pub record PlatformEnvironment : Type 0 where
  pub now : ℕ → ℕ
  pub new_id : ℕ → ℕ → Result String
  pub new_secret : Result String
  pub hash_token : String → String
  pub hashing : Hashing
  pub password : PasswordParameters
  pub enc : Encodings
  pub signer : AccessTokenSigner
  pub verifier : AccessTokenVerifier
  pub refresh_lifetime : ℕ

abbrev invalid_credentials : Error
invalid_credentials = platformadmin PlatformAdminError.invalid_credentials

module _ (lower : Char → Char) (env : PlatformEnvironment) (down : Faults) where
  abbrev normalize : String → String
  normalize s = map_runes lower (trim_space s)

  store_first : String → String → String → ℕ → String → Op String
  store_first username normalized hash now id =
      and_then (PlatformAdmin.bootstrap down id username normalized hash now) λ u. lift (ok id)

  -- Bootstrap
  unfoldable pub bootstrap : String → String → Op String
  unfolding store_first
  bootstrap username password =
      if blank (normalize username)
      then refuse (message "invalid platform administrator username")
      else and_then (lift (hash_password env.hashing password env.password)) λ hash.
        and_then
          (labelled_call "generate platform administrator ID" (lift (env.new_id 0 (env.now 0))))
          (store_first username (normalize username) hash (env.now 0))

  -- signAccess, for which `k` identifiers were generated in the call before.
  unfoldable pub sign_access : ℕ → PlatformSession → ℕ → Op String
  sign_access k x now =
      and_then (labelled_call "generate platform access token ID" (lift (env.new_id k now)))
        λ token_id. labelled_call "sign platform access token" (
          lift (
            sign_platform env.enc env.signer x.administrator_id x.id token_id x.security_version
              now))

  abbrev tokens_of : String → String → Tokens
  tokens_of access secret = record {
    access_token = access;
    refresh_token = secret;
    expires_in = env.signer.lifetime;
    refresh_expires_in = env.refresh_lifetime;
  }

  abbrev first_session : PlatformAccount → String → String → String → ℕ → NewPlatformSession
  first_session a id family secret now = record {
    session = record { id = id; administrator_id = a.id; security_version = a.security_version };
    family_id = family;
    refresh_hash = env.hash_token secret;
    created_at = now;
    expires_at = now + env.refresh_lifetime;
  }

  -- startSession
  unfoldable pub start_session : PlatformAccount → Op Tokens
  unfolding sign_access
  start_session a =
      and_then (labelled_call "generate platform session ID" (lift (env.new_id 0 (env.now 0))))
        λ id.
          and_then (labelled_call "generate platform family ID" (lift (env.new_id 1 (env.now 0))))
            λ family.
              and_then (labelled_call "generate platform refresh token" (lift env.new_secret))
                λ secret.
                  and_then
                    (labelled_call "create platform session" (
                      PlatformAdmin.create_session down
                        (first_session a id family secret (env.now 0))))
                    λ u.
                      and_then
                        (sign_access 2 (first_session a id family secret (env.now 0)).session
                          (env.now 0))
                        λ access. lift (ok (tokens_of access secret))

  after_verify : PlatformAccount → Result (Bool × Bool) → Op Tokens
  unfolding start_session
  after_verify a (err e) = refuse invalid_credentials
  after_verify a (ok (valid, needs_rehash)) =
      if not valid then refuse invalid_credentials else start_session a

  -- Login
  unfoldable pub login : String → String → Op Tokens
  unfolding after_verify
  login username password =
      and_then
        (on_error (λ e. invalid_credentials)
          (PlatformAdmin.find_active_account down (normalize username)))
        λ a. after_verify a (verify_password env.hashing password a.password_hash env.password)

  -- Refresh
  unfoldable pub refresh : String → Op Tokens
  unfolding sign_access
  refresh token =
      if blank token
      then refuse invalid_token
      else and_then (labelled_call "generate platform refresh token" (lift env.new_secret)) λ next.
        and_then
          (on_error (λ e. invalid_token)
            (PlatformAdmin.rotate_session down (env.hash_token token) (env.hash_token next)
              (env.now 0) (env.now 0 + env.refresh_lifetime)))
          λ x. and_then (sign_access 0 x (env.now 0)) λ access. lift (ok (tokens_of access next))

  abbrev session_of_claims : AccessTokenClaims → PlatformSession
  session_of_claims c = record {
    id = c.session_id;
    administrator_id = c.subject;
    security_version = natural c.security_version;
  }

  authenticate_claims : AccessTokenClaims → Op PlatformActor
  authenticate_claims c =
      if not (c.principal_type == "platform")
      then refuse invalid_token
      else and_then
          (on_error (λ e. invalid_token)
            (PlatformAdmin.validate_session down (session_of_claims c) (env.now 1)))
          λ u. lift (ok (record { administrator_id = c.subject; session_id = c.session_id }))

  -- AuthenticateAccess
  unfoldable pub authenticate_access : String → Op PlatformActor
  unfolding authenticate_claims
  authenticate_access token =
      and_then
        (on_error (λ e. invalid_token) (lift (verify env.enc env.verifier token (env.now 0))))
        authenticate_claims

  -- Logout
  unfoldable pub logout : PlatformActor → Op (Unit {0})
  logout actor =
      if blank actor.administrator_id || blank actor.session_id
      then refuse invalid_token
      else labelled_call "logout platform session"
          (PlatformAdmin.revoke_session down actor "logout" (env.now 0))
