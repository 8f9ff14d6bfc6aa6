-- ===== src/PlatformAdmin.antt =====
-- Platform administrators: backend/internal/modules/platformadmin/postgres/store.go, and the types of
-- service.go. The advisory lock of Bootstrap has no effect on serial transactions.
pub mod Service
pub mod Bootstrapping
pub mod Rotation
use modura.Prelude.{
  ℕ, String, Bool, true, false, not, ◌&&◌, Option, none, some, ◌∷◌, ◌==◌, nat_eq, ltb, is_some, any,
  find, if◌then◌else◌, count_where, update_where,
}
use modura.Errors.{PlatformAdminError, Error, platformadmin, Result, ok, err}
use modura.Database.{
  AdministratorStatus, PlatformAdministrator, PlatformAuthSession, PlatformRefreshTokenUse, Db,
}
use modura.Database.Tx.{Faults, Tx, Op, pure, fail, control, query, exec, run, ◌>>=◌, ◌>>◌}

-- platformadmin.Actor
pub record PlatformActor : Type 0 where
  pub administrator_id : String
  pub session_id : String

pub record PlatformAccount : Type 0 where
  pub id : String
  pub password_hash : String
  pub security_version : ℕ

pub record PlatformSession : Type 0 where
  pub id : String
  pub administrator_id : String
  pub security_version : ℕ

pub record NewPlatformSession : Type 0 where
  pub session : PlatformSession
  pub family_id : String
  pub refresh_hash : String
  pub created_at : ℕ
  pub expires_at : ℕ

abbrev pub invalid_token : Error
invalid_token = platformadmin PlatformAdminError.invalid_token

abbrev pub administrator_is_active : PlatformAdministrator → Bool
administrator_is_active a = elim a.status [ AdministratorStatus.active ↦ true | _ ↦ false ]

abbrev pub administrator_row : String → String → String → String → ℕ → PlatformAdministrator
administrator_row id username normalized hash now = record {
  id = id;
  username = username;
  normalized_username = normalized;
  password_hash = hash;
  status = AdministratorStatus.active;
  security_version = 1;
  created_at = now;
  updated_at = now;
}

abbrev session_row : NewPlatformSession → PlatformAuthSession
session_row n = record {
  id = n.session.id;
  administrator_id = n.session.administrator_id;
  family_id = n.family_id;
  refresh_token_hash = n.refresh_hash;
  security_version = n.session.security_version;
  created_at = n.created_at;
  last_used_at = n.created_at;
  expires_at = n.expires_at;
  revoked_at = none;
  revocation_reason = none;
}

abbrev pub session_of : PlatformAuthSession → PlatformSession
session_of s = record {
  id = s.id;
  administrator_id = s.administrator_id;
  security_version = s.security_version;
}

abbrev pub is_live : PlatformAuthSession → Bool
is_live s = not (is_some s.revoked_at)

abbrev pub update_sessions :
    (PlatformAuthSession → Bool) → (PlatformAuthSession → PlatformAuthSession) → Db → ℕ × Db
update_sessions p f db = (
  count_where p db.platform_auth_sessions,
  record db { platform_auth_sessions = update_where p f db.platform_auth_sessions },
)

abbrev pub revoked : ℕ → String → PlatformAuthSession → PlatformAuthSession
revoked now reason s = record s { revoked_at = some now; revocation_reason = some reason }

-- JOIN platform_administrators a ON a.id = s.administrator_id WHERE a.status = 'active' AND
-- a.security_version = version.
unfoldable pub joined : Db → String → ℕ → Bool
joined db administrator version =
    any
      (λ a. a.id == administrator && administrator_is_active a && nat_eq a.security_version version)
      db.platform_administrators

-- The WHERE clause of the query that locks a session.
abbrev pub can_rotate : String → Db → PlatformAuthSession → Bool
can_rotate presented db s =
    s.refresh_token_hash == presented
    && is_live s
    && joined db s.administrator_id s.security_version

-- The WHERE clause of `ValidateSession`.
abbrev pub validates : PlatformSession → ℕ → Db → PlatformAuthSession → Bool
validates x now db s =
    s.id == x.id
    && s.administrator_id == x.administrator_id
    && nat_eq s.security_version x.security_version
    && joined db s.administrator_id x.security_version
    && is_live s
    && ltb now s.expires_at

abbrev insert_use : String → PlatformAuthSession → ℕ → Db → ℕ × Db
insert_use hash s now db = (
  1,
  record db {
    platform_refresh_token_uses =
        (record {
          token_hash = hash;
          session_id = s.id;
          family_id = s.family_id;
          consumed_at = now;
        })
        ∷ db.platform_refresh_token_uses;
  },
)

module _ (down : Faults) where
  insert_first : PlatformAdministrator → Bool → Tx (Result (Unit {0}))
  insert_first row true = fail (platformadmin PlatformAdminError.bootstrap_complete)
  insert_first row false = do
    exec down "insert platform administrator"
        (λ db. (1, record db { platform_administrators = row ∷ db.platform_administrators }))
    control down "commit platform bootstrap"
    pure (ok tt)

  unfoldable pub bootstrap : String → String → String → String → ℕ → Op (Unit {0})
  unfolding insert_first
  bootstrap id username normalized hash now = run do
    control down "begin platform bootstrap"
    control down "lock platform bootstrap"
    exists ←
        query down "check platform bootstrap" (λ db. any (λ a. true) db.platform_administrators)
    insert_first (administrator_row id username normalized hash now) exists

  account_found : Option PlatformAdministrator → Tx (Result PlatformAccount)
  account_found none = fail (platformadmin PlatformAdminError.invalid_credentials)
  account_found (some a) = pure (
      ok (record {
        id = a.id;
        password_hash = a.password_hash;
        security_version = a.security_version;
      }))

  unfoldable pub find_active_account : String → Op PlatformAccount
  unfolding account_found
  find_active_account normalized = run do
    found ← query down "find platform administrator" (λ db.
        find (λ a. a.normalized_username == normalized && administrator_is_active a)
          db.platform_administrators)
    account_found found

  unfoldable pub create_session : NewPlatformSession → Op (Unit {0})
  create_session n = run do
    exec down "create platform session" (λ db.
        (1, record db { platform_auth_sessions = session_row n ∷ db.platform_auth_sessions }))
    pure (ok tt)

  -- A replayed token: its family is revoked, and that is committed with the error.
  revoke_replayed : ℕ → PlatformRefreshTokenUse → Tx (Result PlatformSession)
  revoke_replayed now used = do
    exec down "revoke platform replay family" (
        update_sessions (λ s. s.family_id == used.family_id && is_live s)
          (revoked now "refresh_reuse"))
    control down "commit platform replay"
    pure (err invalid_token)

  rotate_row : String → String → ℕ → ℕ → PlatformAuthSession → Tx (Result PlatformSession)
  rotate_row presented next now expires s = do
    exec down "consume platform refresh token" (insert_use presented s now)
    exec down "rotate platform refresh token" (
        update_sessions (λ r. r.id == s.id)
          (λ r. record r { refresh_token_hash = next; last_used_at = now; expires_at = expires }))
    control down "commit platform refresh"
    pure (ok (session_of s))

  rotate_current :
      String → String → ℕ → ℕ → Option PlatformAuthSession → Tx (Result PlatformSession)
  rotate_current presented next now expires none = fail invalid_token
  rotate_current presented next now expires (some s) =
      if ltb now s.expires_at then rotate_row presented next now expires s else fail invalid_token

  rotate_unless_used :
      String → String → ℕ → ℕ → Option PlatformRefreshTokenUse → Tx (Result PlatformSession)
  rotate_unless_used presented next now expires (some used) = revoke_replayed now used
  rotate_unless_used presented next now expires none = do
    current ←
        query down "lock platform session"
          (λ db. find (can_rotate presented db) db.platform_auth_sessions)
    rotate_current presented next now expires current

  unfoldable pub rotate_session : String → String → ℕ → ℕ → Op PlatformSession
  unfolding revoke_replayed rotate_row rotate_current rotate_unless_used
  rotate_session presented next now expires = run do
    control down "begin platform refresh"
    used ←
        query down "check platform replay"
          (λ db. find (λ u. u.token_hash == presented) db.platform_refresh_token_uses)
    rotate_unless_used presented next now expires used

  unfoldable pub validate_session : PlatformSession → ℕ → Op (Unit {0})
  validate_session x now = run do
    found ←
        query down "validate platform session"
          (λ db. find (validates x now db) db.platform_auth_sessions)
    if is_some found then pure (ok tt) else fail invalid_token

  -- The statement is its own transaction: what it changed stays, also with the error.
  unfoldable pub revoke_session : PlatformActor → String → ℕ → Op (Unit {0})
  revoke_session actor reason now = run do
    n ← exec down "revoke platform session" (
        update_sessions
          (λ s.
            s.administrator_id == actor.administrator_id && s.id == actor.session_id && is_live s)
          (revoked now reason))
    pure (if nat_eq n 1 then ok tt else err invalid_token)
