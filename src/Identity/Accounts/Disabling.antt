-- ===== src/Identity/Accounts/Disabling.antt =====
-- `DisableAccount` in backend/internal/modules/identity/postgres/store.go: what is shut off.
use modura.Prelude.{
  ℕ, zero, suc, String, false, ◌&&◌, Option, none, some, ◌≡◌, ◌≢◌, List, any, find, update_where,
  any-update_where-false, any_imply_false, arith, nat_eq, false≢true, sym, ◌∙◌, find_sound,
  find-any-false,
}
use modura.Errors.{ok}
use modura.Database.{Db, User, AuthSession}
use modura.Database.Tx.{Faults}
use modura.Database.Tx.Rules.{
  Ensures, ensures_pure, ensures_query, ensures_fail, ensures_if, then_control, then_exec, then_any,
}
use modura.Database.Tx.Runs.{run-ensures}
use modura.Identity.Types.{Session}
use modura.Identity.Rows.{is_live_of, is_user, user_is_active, user_is_disabled, revoked}
use modura.Identity.Sessions.{validate_session}
use modura.Identity.Sessions.Validation.{validate_session_sound, validates-stale_user}
use modura.Identity.Accounts.{disable_account, check_disabled, status_query}
use modura.Identity.AccountRows.{can_disable, disabled_at, matches_login}

-- The user is shut off: none of its rows is active, and none of its sessions is live.
pub record IsShutOff (tenant user : String) (db : Db) : Type 0 where
  pub inactive : any (λ u. is_user tenant user u && user_is_active u) db.users ≡ false
  pub no_session : any (is_live_of tenant user) db.auth_sessions ≡ false

disabled_rows_inactive :
    (tenant user : String) (now : ℕ) (rows : List User)
    → any
        (λ u. is_user tenant user u && user_is_active u)
        (update_where (can_disable tenant user) (disabled_at now) rows)
      ≡ false
disabled_rows_inactive tenant user now rows =
    any-update_where-false _ _ _ _ (λ u h. ground arith) (λ u h. ground arith)

revoked_rows_dead :
    (tenant user reason : String) (now : ℕ) (rows : List AuthSession)
    → any (is_live_of tenant user) (update_where (is_live_of tenant user) (revoked now reason) rows)
      ≡ false
revoked_rows_dead tenant user reason now rows =
    any-update_where-false _ _ _ _ (λ s h. ground arith) (λ s h. h)

module _ (down : Faults) (tenant user : String) where
  status_query_keeps :
      (R : Db → Type 0) (label : String) (n : ℕ) (db : Db)
      → R db
      → Ensures (status_query down label n tenant user) db (λ o d. R d)
  unfolding status_query
  status_query_keeps R label zero db h = ensures_query _ _ _ h
  status_query_keeps R label (suc n) db h = ensures_pure _ h

  check_disabled_keeps :
      (R : Db → Type 0) (n : ℕ) (o : Option User) (db : Db)
      → R db
      → Ensures (check_disabled down n o) db (λ u d. R d)
  unfolding check_disabled
  check_disabled_keeps R (suc n) o db h = ensures_pure _ h
  check_disabled_keeps R zero none db h = ensures_fail _
  check_disabled_keeps R zero (some u) db h =
      ensures_if (user_is_disabled u) (λ e. ensures_pure _ h) (λ e. ensures_fail _)

module _ (down : Faults) (tenant user reason : String) (now : ℕ) (db : Db) {db' : Db}
    (done : disable_account down tenant user reason now db ≡ (ok tt, db')) where
  -- A successful disable leaves no active row of the user and no session of it that is not revoked.
  disable_account_shuts_off : IsShutOff tenant user db'
  unfolding disable_account
  disable_account_shuts_off =
      run-ensures {P = λ r d. IsShutOff tenant user d}
        (then_control _ _ _ (
          then_exec _ _ _ _ _ _ (
            then_any _ _
              (status_query_keeps down tenant user Inactive _ _ _
                (disabled_rows_inactive tenant user now db.users))
              λ o d h.
                then_any _ _ (check_disabled_keeps down tenant user Inactive _ o d h) λ u d1 h1.
                  then_exec _ _ _ _ _ _ (
                    then_control _ _ _ (
                      ensures_pure _ (record {
                        inactive = h1;
                        no_session = revoked_rows_dead tenant user reason now d1.auth_sessions;
                      }))))))
        done
    where
      Inactive : Db → Type 0
      Inactive d = any (λ u. is_user tenant user u && user_is_active u) d.users ≡ false

  -- No access token of a disabled user is accepted, whatever security version it carries.
  disable_account-rejects :
      (down' : Faults) (x : Session) (t : ℕ) {db'' : Db}
      → x.tenant_id ≡ tenant
      → x.user_id ≡ user
      → validate_session down' x t db' ≢ (ok tt, db'')
  disable_account-rejects down' x t same_tenant same_user valid =
      false≢true
        (sym (validates-stale_user x t db' stale) ∙ validate_session_sound down' x t db' valid)
    where
      stale :
          any
            (λ u.
              is_user x.tenant_id x.user_id u
              && (user_is_active u && nat_eq u.security_version x.security_version))
            db'.users
          ≡ false
      stale =
          rw (same_tenant, same_user)
            (any_imply_false _ _ db'.users disable_account_shuts_off.inactive (λ u h. ground arith))

  -- Nor does the user log in: no account that a lookup finds is the disabled one.
  disable_account-no_login :
      (slug login : String) (u : User)
      → find (matches_login slug login db') db'.users ≡ some u
      → is_user tenant user u ≡ false
  disable_account-no_login slug login u found =
      let active = find_sound (matches_login slug login db') db'.users found in
      let none_active =
        find-any-false _ (λ v. is_user tenant user v && user_is_active v) db'.users found
          disable_account_shuts_off.inactive in
      ground arith
