-- ===== src/Identity/Accounts/Password.antt =====
-- `ChangePassword` in backend/internal/modules/identity/postgres/store.go.
use modura.Prelude.{
  ℕ, ◌+◌, String, true, false, not, ◌&&◌, Option, none, some, ◌∷◌, ◌≡◌, refl, ap, sym, ◌∙◌, any,
  find, update_where, any-update_where-false, any-update_where-false_of, any_imply_false, arith,
  eq_iff, eq_refl, ◌==◌, nat_eq, false≢true, inl, inr, Bool-cases,
}
use modura.Errors.{Result, ok, err}
use modura.Database.{Db, User, AuthSession}
use modura.Database.Tx.{Faults}
use modura.Database.Tx.Rules.{
  Ensures, ensures_pure, ensures_fail, then_control, then_query, then_exec,
}
use modura.Database.Tx.Runs.{run-ensures}
use modura.Identity.Types.{Actor, Session}
use modura.Identity.Rows.{is_live_of, is_user}
use modura.Identity.Sessions.{validate_session, validates}
use modura.Identity.Sessions.Validation.{validate_session_sound, validates-stale_user}
use modura.Identity.Accounts.{change_password, change_locked}
use modura.Identity.AccountRows.{can_change, with_user, with_password}

module _ (actor : Actor) (expected new_hash presented next : String) (now expires : ℕ)
    (db : Db) where
  abbrev pub locked_pair : Option (AuthSession × User)
  locked_pair = with_user db (find (can_change actor expected presented now db) db.auth_sessions)

  abbrev pub rotated : ℕ → AuthSession → AuthSession
  rotated version r = record r {
    refresh_token_hash = next;
    security_version = version;
    last_used_at = now;
    expires_at = expires;
  }

  -- The session and user that were locked, and the tables afterwards.
  pub record IsChange (s : AuthSession) (u : User) (db' : Db) : Type 0 where
    pub read : locked_pair ≡ some (s, u)
    pub users :
        db'.users
        ≡ update_where
            (is_user actor.tenant_id actor.user_id)
            (with_password new_hash (u.security_version + 1) now)
            db.users
    pub consumed :
        db'.refresh_token_uses
        ≡ (record {
          token_hash = presented;
          session_id = actor.session_id;
          family_id = s.family_id;
          consumed_at = now;
        })
          ∷ db.refresh_token_uses
    pub others_dead :
        any
          (λ r. is_live_of actor.tenant_id actor.user_id r && not (r.id == actor.session_id))
          db'.auth_sessions
        ≡ false

  abbrev pub Changed : Result Session → Db → Type 0
  Changed (err e) db' = ⊥
  Changed (ok x) db' =
      (s : AuthSession) × (u : User) × IsChange s u db'
      × (x ≡ record {
        id = actor.session_id;
        tenant_id = actor.tenant_id;
        user_id = actor.user_id;
        security_version = u.security_version + 1;
      })

same_number : (a b : ℕ) → nat_eq a b ≡ true → a ≡ b
same_number a b h = ground arith

module _ (down : Faults) (actor : Actor) (expected new_hash presented next : String)
    (now expires : ℕ) (db : Db) where
  change_locked-ensures :
      (o : Option (AuthSession × User))
      → locked_pair actor expected new_hash presented next now expires db ≡ o
      → Ensures
          (change_locked down actor new_hash presented next now expires o)
          db
          (Changed actor expected new_hash presented next now expires db)
  unfolding change_locked
  change_locked-ensures none h = ensures_fail _
  change_locked-ensures (some (s, u)) h = then_exec _ _ _ _ _ _ (
      then_exec _ _ _ _ _ _ (
        then_exec _ _ _ _ _ _ (
          then_exec _ _ _ _ _ _ (
            then_control _ _ _ (
              ensures_pure _ (
                s,
                u,
                record {
                  read = h;
                  users = refl;
                  consumed = refl;
                  others_dead =
                      any-update_where-false_of _ _ _ _ _
                        (any-update_where-false _ _ _ db.auth_sessions (λ r q. ground arith)
                          (λ r q. q))
                        (λ r q. ground arith) (λ r q w. w);
                },
                refl,
              ))))))

  -- A successful change read a live, unexpired session of the actor under the presented hash, whose
  -- active user has the expected password hash; it sets the password, raises the security version
  -- by one, consumes the presented token, and revokes every other session of the user.
  change_password_sound :
      (x : Session) {db' : Db}
      → change_password down actor expected new_hash presented next now expires db ≡ (ok x, db')
      → Changed actor expected new_hash presented next now expires db (ok x) db'
  unfolding change_password
  change_password_sound x done =
      run-ensures {P = Changed actor expected new_hash presented next now expires db}
        (then_control _ _ _ (then_query _ _ _ _ (change_locked-ensures _ refl))) done

  other_session_dead :
      (y : Session) (t : ℕ) (db' : Db)
      → y.tenant_id ≡ actor.tenant_id
      → y.user_id ≡ actor.user_id
      → (y.id == actor.session_id) ≡ false
      → any
          (λ r. is_live_of actor.tenant_id actor.user_id r && not (r.id == actor.session_id))
          db'.auth_sessions
        ≡ false
      → any (validates y t db') db'.auth_sessions ≡ false
  other_session_dead y t db' same_tenant same_user other dead =
      any_imply_false _ _ db'.auth_sessions dead λ r h. ground (
        arith,
        eq_iff r.id y.id,
        eq_iff r.tenant_id y.tenant_id,
        eq_iff r.user_id y.user_id,
        eq_refl actor.tenant_id,
        eq_refl actor.user_id,
      )

  old_version_stale :
      (y : Session) (t : ℕ) (db' : Db) (version : ℕ)
      → y.tenant_id ≡ actor.tenant_id
      → y.user_id ≡ actor.user_id
      → nat_eq y.security_version version ≡ false
      → db'.users
        ≡ update_where
            (is_user actor.tenant_id actor.user_id)
            (with_password new_hash version now)
            db.users
      → any (validates y t db') db'.auth_sessions ≡ false
  old_version_stale y t db' version same_tenant same_user old users = validates-stale_user y t db' (
      rw (users, same_tenant, same_user)
        (any-update_where-false _ _ _ db.users (λ u h. ground arith) (λ u h. ground arith)))

  -- Afterwards an access token of the user is accepted only if it carries the new security version
  -- and names the session that changed the password.
  pub change_password-only_survivor :
      (x y : Session) (down' : Faults) (t : ℕ) {db' db'' : Db}
      → change_password down actor expected new_hash presented next now expires db ≡ (ok x, db')
      → y.tenant_id ≡ actor.tenant_id
      → y.user_id ≡ actor.user_id
      → validate_session down' y t db' ≡ (ok tt, db'')
      → (y.id ≡ x.id) × (y.security_version ≡ x.security_version)
  change_password-only_survivor x y down' t {db'} done same_tenant same_user valid =
      let (s, u, c, result) = change_password_sound x done in
      let accepted = validate_session_sound down' y t db' valid in
      (
        elim (Bool-cases (y.id == actor.session_id)) [
          | inl e ↦ (eq_iff y.id actor.session_id).0 e ∙ sym (ap (λ (z : Session). z.id) result)
          | inr e ↦ absurd (
              false≢true
                (sym (other_session_dead y t db' same_tenant same_user e c.others_dead) ∙ accepted))
        ],
        elim (Bool-cases (nat_eq y.security_version (u.security_version + 1))) [
          | inl e ↦
              same_number y.security_version (u.security_version + 1) e
              ∙ sym (ap (λ (z : Session). z.security_version) result)
          | inr e ↦ absurd (
              false≢true (
                sym (
                  old_version_stale y t db' (u.security_version + 1) same_tenant same_user e
                    c.users)
                ∙ accepted))
        ],
      )
