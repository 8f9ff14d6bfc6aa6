-- ===== src/Identity/Accounts.antt =====
-- Accounts and credentials in backend/internal/modules/identity/postgres/store.go.
pub mod Activity
pub mod Disabling
pub mod Password
pub mod OneTime
use modura.Prelude.{
  ℕ, zero, suc, ◌+◌, String, Bool, true, false, not, ◌&&◌, ◌||◌, Option, none, some, ◌∷◌, ◌==◌,
  nat_eq, ltb, is_some, blank, find, any, if◌then◌else◌, count_where, update_where,
}
use modura.Errors.{IdentityError, Error, identity, Result, ok, err}
use modura.Database.{
  Tenant, TenantStatus, User, UserStatus, AuthSession, OneTimeToken, OneTimePurpose, Db,
}
use modura.Database.Tx.{
  Faults, Tx, Op, pure, fail, failure, control, query, exec, run, and_then, ◌>>=◌, ◌>>◌,
}
use modura.Identity.Types.{Actor, Account, Session, TenantProvisioning}
use modura.Identity.Rows.{
  tenant_is_active, user_is_active, user_is_invited, user_is_locked, user_is_disabled, same_purpose,
  is_user, is_live, is_live_of, revoked, joined, update_users, update_sessions, update_tokens,
  insert_use,
}
use modura.Identity.AccountRows.{
  has_hash, verified_email_is, matches_login, account_of, disabled_at, can_disable, with_password,
  verified_at, credential_set, may_hold, purpose_text, is_open, is_outstanding, can_consume,
  can_change, with_user, nullable_text, is_provisioning, one_row,
}

module _ (down : Faults) where
  unfoldable pub find_active_account : String → String → Op Account
  find_active_account slug login = run do
    found ← query down "find active account" (λ db. find (matches_login slug login db) db.users)
    elim found [
      | none ↦ fail (identity IdentityError.invalid_credentials)
      | some u ↦ account_of u u.password_hash
    ]

  unfoldable pub update_password_hash : String → String → String → ℕ → Op (Unit {0})
  update_password_hash tenant user hash server_now = run do
    n ← exec down "update password hash" (
        update_users (λ u. is_user tenant user u && user_is_active u)
          (λ u. record u { password_hash = some hash; updated_at = server_now }))
    one_row (identity IdentityError.inactive_user) n

  unfoldable pub password_hash : Actor → Op String
  password_hash actor = run do
    found ← query down "read password hash" (λ db.
        find
          (λ u.
            is_user actor.tenant_id actor.user_id u
            && user_is_active u
            && any (λ t. t.id == u.tenant_id && tenant_is_active t) db.tenants
            && any (λ s. is_live_of u.tenant_id u.id s && s.id == actor.session_id)
                db.auth_sessions)
          db.users)
    elim found [
      | none ↦ fail (identity IdentityError.invalid_credentials)
      | some u ↦ elim u.password_hash [
        | none ↦ fail (failure "read password hash")
        | some hash ↦ pure (ok hash)
      ]
    ]

  change_locked :
      Actor → String → String → String → ℕ → ℕ → Option (AuthSession × User) → Tx (Result Session)
  change_locked actor new_hash presented next now expires none =
      fail (identity IdentityError.invalid_token)
  change_locked actor new_hash presented next now expires (some (s, u)) = do
    exec down "update password" (
        update_users (is_user actor.tenant_id actor.user_id)
          (with_password new_hash (u.security_version + 1) now))
    exec down "revoke sessions after password change" (
        update_sessions
          (λ r. is_live_of actor.tenant_id actor.user_id r && not (r.id == actor.session_id))
          (revoked now "password_changed"))
    exec down "consume password-change refresh token"
        (insert_use presented actor.session_id s.family_id now)
    exec down "rotate password-change session" (
        update_sessions (λ r. r.id == actor.session_id)
          (λ r. record r {
            refresh_token_hash = next;
            security_version = u.security_version + 1;
            last_used_at = now;
            expires_at = expires;
          }))
    control down "commit password change"
    pure (
        ok (record {
          id = actor.session_id;
          tenant_id = actor.tenant_id;
          user_id = actor.user_id;
          security_version = u.security_version + 1;
        }))

  unfoldable pub change_password : Actor → String → String → String → String → ℕ → ℕ → Op Session
  unfolding change_locked
  change_password actor expected new_hash presented next now expires = run do
    control down "begin password change"
    locked ←
        query down "lock password change"
          (λ db. with_user db (find (can_change actor expected presented now db) db.auth_sessions))
    change_locked actor new_hash presented next now expires locked

  insert_token : String → String → OneTimePurpose → String → String → ℕ → ℕ → Db → ℕ × Db
  insert_token tenant user purpose id hash now expires db =
      if joined db tenant user (may_hold purpose)
      then (
        1,
        record db {
          one_time_tokens =
              record {
                id = id;
                tenant_id = tenant;
                user_id = user;
                purpose = purpose;
                token_hash = hash;
                created_at = now;
                expires_at = expires;
                consumed_at = none;
              }
              ∷ db.one_time_tokens;
        },
      )
      else (0, db)

  commit_token : ℕ → Tx (Result (Unit {0}))
  commit_token n =
      if nat_eq n 1
      then (do control down "commit one-time token creation"; pure (ok tt))
      else fail (identity IdentityError.inactive_user)

  unfoldable pub create_one_time_token :
      String → String → OneTimePurpose → String → String → ℕ → ℕ → Op (Unit {0})
  unfolding insert_token commit_token
  create_one_time_token tenant user purpose id hash now expires = run do
    control down "begin one-time token creation"
    exec down "invalidate previous one-time tokens" (
        update_tokens (is_outstanding tenant user purpose)
          (λ k. record k { consumed_at = some now }))
    n ← exec down "insert one-time token" (insert_token tenant user purpose id hash now expires)
    commit_token n

  consume_row : OneTimePurpose → String → String → ℕ → OneTimeToken → Tx (Result (Unit {0}))
  consume_row purpose token_hash new_hash now k = do
    exec down "update one-time token credential"
        (update_users (is_user k.tenant_id k.user_id) (credential_set purpose new_hash now))
    exec down "consume one-time token"
        (update_tokens (λ r. r.token_hash == token_hash) (λ r. record r { consumed_at = some now }))
    exec down "revoke sessions after one-time token"
        (update_sessions (is_live_of k.tenant_id k.user_id) (revoked now (purpose_text purpose)))
    control down "commit one-time token consumption"
    pure (ok tt)

  consume_locked :
      OneTimePurpose → String → String → ℕ → Option OneTimeToken → Tx (Result (Unit {0}))
  consume_locked purpose token_hash new_hash now none = fail (identity IdentityError.invalid_token)
  consume_locked purpose token_hash new_hash now (some k) =
      if ltb now k.expires_at
      then consume_row purpose token_hash new_hash now k
      else fail (identity IdentityError.expired_token)

  unfoldable pub consume_one_time_token : String → OneTimePurpose → String → ℕ → Op (Unit {0})
  unfolding consume_row consume_locked
  consume_one_time_token token_hash purpose new_hash now = run do
    control down "begin one-time token consumption"
    locked ←
        query down "lock one-time token"
          (λ db. find (can_consume token_hash purpose db) db.one_time_tokens)
    consume_locked purpose token_hash new_hash now locked

  -- No row was updated: the status decides.
  check_disabled : ℕ → Option User → Tx (Unit {0})
  check_disabled (suc n) found = pure tt
  check_disabled zero none = fail (identity IdentityError.inactive_user)
  check_disabled zero (some u) =
      if user_is_disabled u then pure tt else fail (identity IdentityError.inactive_user)

  status_query : String → ℕ → String → String → Tx (Option User)
  status_query label zero tenant user = query down label (λ db. find (is_user tenant user) db.users)
  status_query label (suc n) tenant user = pure none

  unfoldable pub disable_account : String → String → String → ℕ → Op (Unit {0})
  unfolding check_disabled status_query
  disable_account tenant user reason now = run do
    control down "begin account disable"
    n ←
        exec down "update disabled account"
          (update_users (can_disable tenant user) (disabled_at now))
    found ← status_query "check disabled account" n tenant user
    check_disabled n found
    exec down "revoke disabled account sessions"
        (update_sessions (is_live_of tenant user) (revoked now reason))
    control down "commit account disable"
    pure (ok tt)

  -- The update commits by itself; only where it affected no row does the status query follow.
  status_after : String → String → ℕ → Op (Unit {0})
  status_after tenant user n =
      if nat_eq n 1
      then (λ db. (ok tt, db))
      else run (do
        found ← query down "check unlocked account" (λ db. find (is_user tenant user) db.users)
        elim found [
          | none ↦ fail (identity IdentityError.inactive_user)
          | some u ↦
              if user_is_active u then pure (ok tt) else fail (identity IdentityError.inactive_user)
        ])

  unfoldable pub unlock_account : String → String → ℕ → Op (Unit {0})
  unfolding status_after
  unlock_account tenant user now =
      and_then
        (run (do
          n ← exec down "unlock account" (
              update_users (λ u. is_user tenant user u && user_is_locked u)
                (λ u. record u { status = UserStatus.active; updated_at = now }))
          pure (ok n)))
        (status_after tenant user)

  unfoldable pub provision_tenant : TenantProvisioning → Tx (Unit {0})
  provision_tenant p = do
    exec down "insert provisioning tenant" (λ db. (
      1,
      record db {
        tenants =
            record {
              id = p.tenant_id;
              slug = p.slug;
              display_name = p.display_name;
              status = TenantStatus.provisioning;
              created_at = p.created_at;
              updated_at = p.created_at;
            }
            ∷ db.tenants;
      },
    ))
    exec down "insert invited administrator" (λ db. (
      1,
      record db {
        users =
            record {
              id = p.administrator_id;
              tenant_id = p.tenant_id;
              username = p.username;
              normalized_username = p.normalized_username;
              email = nullable_text p.email;
              normalized_email = if blank p.email then none else some p.normalized_email;
              email_verified_at = none;
              password_hash = none;
              status = UserStatus.invited;
              security_version = 1;
              created_at = p.created_at;
              updated_at = p.created_at;
            }
            ∷ db.users;
      },
    ))
    exec down "insert administrator invitation" (λ db. (
      1,
      record db {
        one_time_tokens =
            record {
              id = p.invitation_id;
              tenant_id = p.tenant_id;
              user_id = p.administrator_id;
              purpose = OneTimePurpose.invitation;
              token_hash = p.invitation_hash;
              created_at = p.created_at;
              expires_at = p.invitation_expires;
              consumed_at = none;
            }
            ∷ db.one_time_tokens;
      },
    ))
    pure tt

  unfoldable pub activate_tenant : String → ℕ → Tx (Unit {0})
  activate_tenant tenant now = do
    n ← exec down "update tenant active" (λ db. (
      count_where (λ t. t.id == tenant && is_provisioning t) db.tenants,
      record db {
        tenants =
            update_where (λ t. t.id == tenant && is_provisioning t)
              (λ t. record t { status = TenantStatus.active; updated_at = now }) db.tenants;
      },
    ))
    if nat_eq n 1 then pure tt else fail (identity IdentityError.inactive_tenant)
