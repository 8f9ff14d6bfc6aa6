-- ===== src/Identity/Sessions/Validation.antt =====
-- What a successful `ValidateSession` has seen.
use modura.Prelude.{
  ℕ, true, false, ◌&&◌, ◌≡◌, any, find, any-of-is_some-find, any-false, any_imply_false, arith,
  eq_iff, nat_eq, is_some,
}
use modura.Errors.{ok}
use modura.Database.{Db, AuthSession}
use modura.Database.Tx.{Faults}
use modura.Database.Tx.Rules.{ensures_pure, ensures_fail, ensures_if, then_query}
use modura.Database.Tx.Runs.{run-ensures}
use modura.Identity.Types.{Session}
use modura.Identity.Rows.{is_live_of, is_user, user_is_active, joined, joined-false}
use modura.Identity.Sessions.{validate_session, validates}

pub validate_session_sound :
    (down : Faults) (x : Session) (now : ℕ) (db : Db) {db' : Db}
    → validate_session down x now db ≡ (ok tt, db')
    → any (validates x now db) db.auth_sessions ≡ true
unfolding validate_session
validate_session_sound down x now db done =
    run-ensures {P = λ r d. any (validates x now db) db.auth_sessions ≡ true}
      (then_query _ _ _ _ (
        ensures_if (is_some (find (validates x now db) db.auth_sessions))
          (λ k. ensures_pure _ (any-of-is_some-find (validates x now db) db.auth_sessions k))
          (λ k. ensures_fail _)))
      done

-- A session of a user whose row does not have the session's security version, or is not active,
-- does not validate.
pub validates-stale_user :
    (x : Session) (now : ℕ) (db : Db)
    → any
        (λ u.
          is_user x.tenant_id x.user_id u
          && (user_is_active u && nat_eq u.security_version x.security_version))
        db.users
      ≡ false
    → any (validates x now db) db.auth_sessions ≡ false
validates-stale_user x now db h =
    any-false _ _ (λ s. each s (joined-false db x.tenant_id x.user_id _ h))
  where
    each :
        (s : AuthSession)
        → joined db x.tenant_id x.user_id
            (λ u. user_is_active u && nat_eq u.security_version x.security_version)
          ≡ false
        → validates x now db s ≡ false
    each s k = ground (arith, eq_iff s.tenant_id x.tenant_id, eq_iff s.user_id x.user_id)

-- Nor does one whose user has no session that is not revoked.
pub validates-no_live :
    (x : Session) (now : ℕ) (db : Db)
    → any (is_live_of x.tenant_id x.user_id) db.auth_sessions ≡ false
    → any (validates x now db) db.auth_sessions ≡ false
validates-no_live x now db h = any_imply_false _ _ db.auth_sessions h (λ s k. ground (arith))
