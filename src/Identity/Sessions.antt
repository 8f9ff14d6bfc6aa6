-- ===== src/Identity/Sessions.antt =====
-- Sessions in backend/internal/modules/identity/postgres/store.go.
pub mod Reuse
pub mod Rotation
pub mod Validation
use modura.Prelude.{
  ℕ, String, Bool, not, ◌&&◌, Option, none, some, ◌∷◌, ◌==◌, nat_eq, ltb, is_some, find,
  if◌then◌else◌,
}
use modura.Errors.{IdentityError, identity, Result, ok, err}
use modura.Database.{AuthSession, RefreshTokenUse, Db}
use modura.Database.Tx.{Faults, Tx, Op, pure, fail, control, query, exec, run, ◌>>=◌, ◌>>◌}
use modura.Identity.Types.{Session, NewSession}
use modura.Identity.Rows.{
  user_is_active, is_live, is_live_of, revoked, joined, update_sessions, insert_use,
}

abbrev pub session_row : NewSession → AuthSession
session_row n = record {
  id = n.session.id;
  tenant_id = n.session.tenant_id;
  user_id = n.session.user_id;
  family_id = n.family_id;
  refresh_token_hash = n.refresh_hash;
  security_version = n.session.security_version;
  created_at = n.created_at;
  last_used_at = n.created_at;
  expires_at = n.expires_at;
  revoked_at = none;
  revocation_reason = none;
}

abbrev pub session_of : AuthSession → Session
session_of s = record {
  id = s.id;
  tenant_id = s.tenant_id;
  user_id = s.user_id;
  security_version = s.security_version;
}

-- The WHERE clause of `selectCurrent`.
abbrev pub can_rotate : String → Db → AuthSession → Bool
can_rotate presented db s =
    s.refresh_token_hash == presented
    && is_live s
    && joined db s.tenant_id s.user_id
        (λ u. user_is_active u && nat_eq u.security_version s.security_version)

-- The WHERE clause of `ValidateSession`.
abbrev pub validates : Session → ℕ → Db → AuthSession → Bool
validates x now db s =
    s.id == x.id
    && s.tenant_id == x.tenant_id
    && s.user_id == x.user_id
    && nat_eq s.security_version x.security_version
    && is_live s
    && ltb now s.expires_at
    && joined db s.tenant_id s.user_id
        (λ u. user_is_active u && nat_eq u.security_version x.security_version)

module _ (down : Faults) where
  unfoldable pub create_session : NewSession → Op (Unit {0})
  create_session n = run do
    exec down "create session"
        (λ db. (1, record db { auth_sessions = session_row n ∷ db.auth_sessions }))
    pure (ok tt)

  -- The token was consumed before: its family is revoked, and that is committed with the error.
  revoke_replayed : ℕ → RefreshTokenUse → Tx (Result Session)
  revoke_replayed now use_row = do
    exec down "revoke replayed token family" (
        update_sessions (λ s. s.family_id == use_row.family_id && is_live s)
          (revoked now "refresh_reuse"))
    control down "commit replay revocation"
    pure (err (identity IdentityError.refresh_reuse))

  rotate_row : String → String → ℕ → ℕ → AuthSession → Tx (Result Session)
  rotate_row presented next now expires s = do
    exec down "record consumed refresh token" (insert_use presented s.id s.family_id now)
    exec down "rotate refresh token" (
        update_sessions (λ r. r.id == s.id)
          (λ r. record r { refresh_token_hash = next; last_used_at = now; expires_at = expires }))
    control down "commit refresh rotation"
    pure (ok (session_of s))

  rotate_current : String → String → ℕ → ℕ → Option AuthSession → Tx (Result Session)
  rotate_current presented next now expires none = fail (identity IdentityError.invalid_token)
  rotate_current presented next now expires (some s) =
      if ltb now s.expires_at
      then rotate_row presented next now expires s
      else fail (identity IdentityError.expired_token)

  rotate_unless_used : String → String → ℕ → ℕ → Option RefreshTokenUse → Tx (Result Session)
  rotate_unless_used presented next now expires (some used) = revoke_replayed now used
  rotate_unless_used presented next now expires none = do
    current ←
        query down "lock refresh session" (λ db. find (can_rotate presented db) db.auth_sessions)
    rotate_current presented next now expires current

  unfoldable pub rotate_session : String → String → ℕ → ℕ → Op Session
  unfolding revoke_replayed rotate_row rotate_current rotate_unless_used
  rotate_session presented next now expires = run do
    control down "begin refresh rotation"
    used ←
        query down "check refresh replay"
          (λ db. find (λ u. u.token_hash == presented) db.refresh_token_uses)
    rotate_unless_used presented next now expires used

  unfoldable pub revoke_session : String → String → String → String → ℕ → Op (Unit {0})
  revoke_session tenant user session reason now = run do
    exec down "revoke session"
        (update_sessions (λ s. is_live_of tenant user s && s.id == session) (revoked now reason))
    pure (ok tt)

  unfoldable pub revoke_other_sessions : String → String → String → String → ℕ → Op (Unit {0})
  revoke_other_sessions tenant user session reason now = run do
    exec down "revoke other sessions" (
        update_sessions (λ s. is_live_of tenant user s && not (s.id == session))
          (revoked now reason))
    pure (ok tt)

  unfoldable pub revoke_all_sessions : String → String → String → ℕ → Op (Unit {0})
  revoke_all_sessions tenant user reason now = run do
    exec down "revoke all sessions" (update_sessions (is_live_of tenant user) (revoked now reason))
    pure (ok tt)

  unfoldable pub validate_session : Session → ℕ → Op (Unit {0})
  validate_session x now = run do
    found ← query down "validate session" (λ db. find (validates x now db) db.auth_sessions)
    if is_some found then pure (ok tt) else fail (identity IdentityError.invalid_token)
