-- ===== src/Identity/Accounts/Activity.antt =====
-- An account that is found for a login is active, and stays so under a new hash.
use modura.Prelude.{
  ℕ, String, Bool, Option, none, and-eq-true, true, false, ◌&&◌, ◌||◌, ◌==◌, some, ◌≡◌, refl, any,
  blank, nat_eq, arith, eq_refl, find, find_sound, any-of-find, any_imply_true,
  any-update_where_same, find-any-false,
}
use modura.Errors.{Error, IdentityError, identity, Result, ok, err}
use modura.Database.{User, Db}
use modura.Database.Tx.{Faults, fail}
use modura.Database.Tx.Rules.{
  Ensures, ensures_pure, ensures_fail, then_exec, then_query, ensures_if,
}
use modura.Database.Tx.Runs.{run-ensures}
use modura.Identity.Types.{Account}
use modura.Identity.Rows.{update_users, is_user, user_is_active, joined, tenant_is_active}
use modura.Identity.AccountRows.{matches_login, account_of, one_row}
use modura.Identity.Accounts

-- The user of the account is active, under the account's security version, and so is its tenant.
abbrev pub IsActive : Account → Db → Type 0
IsActive a db =
    joined db a.tenant_id a.user_id
      (λ u. user_is_active u && nat_eq u.security_version a.security_version)
    ≡ true

abbrev pub unnamed : User → Bool
unnamed u = blank u.tenant_id || blank u.id

abbrev pub Finds : Db → Result Account → Db → Type 0
Finds db (err e) d = Unit {0}
Finds db (ok a) d =
    (d ≡ db) × IsActive a db × (blank a.tenant_id ≡ false) × (blank a.user_id ≡ false)

matching-active :
    (slug name : String) (db : Db) (u : User)
    → find (matches_login slug name db) db.users ≡ some u
    → joined db u.tenant_id u.id
        (λ r. user_is_active r && nat_eq r.security_version u.security_version)
      ≡ true
unfolding joined
matching-active slug name db u h =
    let matched = find_sound (matches_login slug name db) db.users h in
    let tenant : any (λ t. t.id == u.tenant_id && t.slug == slug && tenant_is_active t) db.tenants
        ≡ true =
      (and-eq-true _ _ (and-eq-true _ _ matched).0).0 in
    let there =
      any-of-find (matches_login slug name db)
        (λ r.
          is_user u.tenant_id u.id r
          && (user_is_active r && nat_eq r.security_version u.security_version))
        db.users h (ground (arith, eq_refl u.tenant_id, eq_refl u.id)) in
    let active_tenant =
      any_imply_true (λ t. t.id == u.tenant_id && t.slug == slug && tenant_is_active t)
        (λ r. r.id == u.tenant_id && tenant_is_active r) db.tenants tenant λ r k. ground arith in
    rw (there, active_tenant)

pub find_active_account-Finds :
    (down : Faults) (slug name : String) (db : Db) {a : Account} {d : Db}
    → Accounts.find_active_account down slug name db ≡ (ok a, d)
    → any unnamed db.users ≡ false
    → Finds db (ok a) d
unfolding Accounts.find_active_account
find_active_account-Finds down slug name db {a} {d} h named =
    run-ensures {P = Finds db} (then_query _ _ _ _ (by_user _ refl)) h
  where
    by_hash :
        (u : User) (o : Option String)
        → find (matches_login slug name db) db.users ≡ some u
        → Ensures (account_of u o) db (Finds db)
    by_hash u none e = ensures_fail _
    by_hash u (some hash) e = ensures_pure _ (
        let named_user : unnamed u ≡ false = find-any-false _ unnamed db.users e named in
        (refl, matching-active slug name db u e, ground arith, ground arith))

    by_user :
        (o : Option User)
        → find (matches_login slug name db) db.users ≡ o
        → Ensures
            (elim o [
              | none ↦ fail (identity IdentityError.invalid_credentials)
              | some u ↦ account_of u u.password_hash
            ])
            db
            (Finds db)
    by_user none e = ensures_fail _
    by_user (some u) e = by_hash u u.password_hash e

rehashed-IsActive :
    (t user hash : String) (now : ℕ) (a : Account) (db : Db)
    → IsActive a db
    → IsActive a
        (update_users
          (λ u. is_user t user u && user_is_active u)
          (λ u. record u { password_hash = some hash; updated_at = now })
          db).1
unfolding joined
rehashed-IsActive t user hash now a db active =
    rw
      (any-update_where_same (λ u. is_user t user u && user_is_active u)
        (λ u.
          is_user a.tenant_id a.user_id u
          && (user_is_active u && nat_eq u.security_version a.security_version))
        (λ u. record u { password_hash = some hash; updated_at = now }) db.users (λ u. refl))
      active

either_row :
    {P : Result (Unit {0}) → Db → Type 0} {db : Db} (e : Error) (n : ℕ)
    → P (ok tt) db
    → P (err e) db
    → Ensures (one_row e n) db P
either_row e n h k =
    ensures_if (nat_eq n 1) (λ _. ensures_pure (ok tt) h) (λ _. ensures_pure (err e) k)

-- A new hash leaves the user active under the same version.
pub update_password_hash-IsActive :
    (down : Faults) (t user hash : String) (now : ℕ) (a : Account) (db : Db) {d : Db}
    → Accounts.update_password_hash down t user hash now db ≡ (ok tt, d)
    → IsActive a db
    → IsActive a d
unfolding Accounts.update_password_hash
update_password_hash-IsActive down t user hash now a db h active =
    run-ensures {db = db} {P = λ r d. IsActive a d}
      (then_exec _ _ _ _ _ _ (either_row _ _ rehashed rehashed)) h
  where
    rehashed :
        IsActive a
          (update_users
            (λ u. is_user t user u && user_is_active u)
            (λ u. record u { password_hash = some hash; updated_at = now })
            db).1
    rehashed = rehashed-IsActive t user hash now a db active
