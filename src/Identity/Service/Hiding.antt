-- ===== src/Identity/Service/Hiding.antt =====
-- What a login that fails does not tell.
use modura.Prelude.{
  ℕ, String, Char, Bool, true, false, not, ◌&&◌, ◌||◌, Option, none, some, ◌≡◌, ◌⊎◌, inl, inr, refl,
  any, find, find_sound, find-any-false, any-of-find, any_imply_true, Bool-cases, arith, ◌==◌,
  is_some,
}
use modura.Errors.{wrap, Result, ok, err}
use modura.Database.{Tenant, TenantStatus, User, UserStatus, Db}
use modura.Database.Tx.{Faults, and_then, on_error, run, query, fail, pure, ◌>>=◌, failure}
use modura.Identity.Types.{Account, Tokens}
use modura.Identity.AccountRows.{matches_login, account_of, has_hash}
use modura.Identity.Rows.{tenant_is_active}
use modura.Identity.Accounts
use modura.Identity.Service.{
  Environment, login, login_error, after_verify, invalid_credentials, normalize_login,
}
use modura.Identity.Service.Login.{outcome}

-- The hash is there and the verifier says that the password is its own.
abbrev pub proved : Result (Bool × Bool) → Bool
proved (ok (valid, needs_rehash)) = valid
proved (err e) = false

abbrev pub opens : (String → Result (Bool × Bool)) → Option String → Bool
opens verify none = false
opens verify (some hash) = proved (verify hash)

abbrev pub is_email : String → Option String → Bool
is_email name none = false
is_email name (some e) = e == name

is_email-has_hash : (name : String) (e : Option String) → is_email name e ≡ has_hash name e
is_email-has_hash name none = refl
is_email-has_hash name (some e) = refl

-- The user is active, in an active tenant of that slug, and has that name or verified email.
abbrev pub is_account : String → String → Db → User → Bool
is_account slug name db u =
    any
      (λ t.
        t.slug == slug
        && t.id == u.tenant_id
        && elim t.status [ TenantStatus.active ↦ true | _ ↦ false ])
      db.tenants
    && elim u.status [ UserStatus.active ↦ true | _ ↦ false ]
    && (u.normalized_username == name
        || (is_email name u.normalized_email && is_some u.email_verified_at))

module _ (lower : Char → Char) (env : Environment) (down : Faults) (slug name password : String)
    (server_now : ℕ) (db : Db) where
  -- The account that a login is for, under the names as the service normalizes them.
  abbrev pub is_asked : User → Bool
  is_asked u =
      is_account (normalize_login lower env down slug) (normalize_login lower env down name) db u

  -- The lookup could not be done, or met an account without a hash.
  abbrev pub Unread : Type 0
  Unread =
      (down "find active account" 0 ≡ true)
      ⊎ (any (λ u. is_asked u && not (is_some u.password_hash)) db.users ≡ true)

  -- The answer for all logins that are refused, and the driver's error.
  abbrev pub Hidden : Result Tokens → Type 0
  Hidden r =
      (r ≡ err invalid_credentials)
      ⊎ ((r ≡ err (wrap "find login account" (failure "find active account"))) × Unread)

  abbrev NothingOpens : Type 0
  NothingOpens =
      any (λ u. is_asked u && opens (env.verify_password password) u.password_hash) db.users ≡ false

  abbrev found : User → Bool
  found =
      matches_login (normalize_login lower env down slug) (normalize_login lower env down name) db

  abbrev in_tenant : User → Tenant → Bool
  in_tenant u t =
      t.id == u.tenant_id && t.slug == normalize_login lower env down slug && tenant_is_active t

  found-is_asked : (u : User) → found u ≡ true → is_asked u ≡ true
  found-is_asked u h =
      let there =
        any_imply_true (in_tenant u)
          (λ t.
            t.slug == normalize_login lower env down slug
            && t.id == u.tenant_id
            && tenant_is_active t)
          db.tenants (ground arith) (λ t k. ground arith) in
      let same = is_email-has_hash (normalize_login lower env down name) u.normalized_email in
      rw (there, same) (ground arith)

  abbrev after_lookup : Option User → Result Tokens × Db
  after_lookup o =
      and_then
        (on_error login_error (
          run (elim o [ none ↦ fail invalid_credentials | some u ↦ account_of u u.password_hash ])))
        (λ a.
          after_verify lower env down a password server_now
            (env.verify_password password a.password_hash))
        db

  module _ {r : Result Tokens} {db' : Db} where
    refused :
        (a : Account) (v : Result (Bool × Bool))
        → proved v ≡ false
        → after_verify lower env down a password server_now v db ≡ (r, db')
        → (db' ≡ db) × Hidden r
    unfolding after_verify run fail
    refused a (err e) h k = (cc k, inl (cc k))
    refused a (ok (valid, needs_rehash)) h k =
        let l : (err invalid_credentials, db) ≡ (r, db') = (rw h at k) in (cc l, inl (cc l))

    by_hash :
        (u : User) (hash : Option String)
        → u.password_hash ≡ hash
        → is_asked u ≡ true
        → find found db.users ≡ some u
        → NothingOpens
        → and_then
            (on_error login_error (run (account_of u hash)))
            (λ a.
              after_verify lower env down a password server_now
                (env.verify_password password a.password_hash))
            db
          ≡ (r, db')
        → (db' ≡ db) × Hidden r
    unfolding and_then on_error login_error run fail pure
    by_hash u none same mine read shut h =
        (cc h, inr (cc h, inr (any-of-find found _ db.users read (rw (mine, same)))))
    by_hash u (some hash) same mine read shut h =
        let closed = find-any-false found _ db.users read shut in
        refused _ (env.verify_password password hash) (rw (mine, same) at closed) h

    by_found :
        (o : Option User)
        → find found db.users ≡ o
        → NothingOpens
        → after_lookup o ≡ (r, db')
        → (db' ≡ db) × Hidden r
    by_found none read shut h = unfold and_then on_error login_error run fail in (cc h, inl (cc h))
    by_found (some u) read shut h =
        by_hash u u.password_hash refl (found-is_asked u (find_sound found db.users read)) read shut
          h

    -- A login for which the password opens no active user's account under that name in an active
    -- tenant of that slug changes nothing, and its answer is the same whether there is no such
    -- tenant, it is not active, there is no such user, it is not active, or the password is not its
    -- own: invalid credentials. The other answer is the driver's error of a lookup that could not be
    -- done.
    pub login_hides :
        any (λ u. is_asked u && opens (env.verify_password password) u.password_hash) db.users
          ≡ false
        → outcome lower env down slug name password server_now db ≡ (r, db')
        → (db' ≡ db) × Hidden r
    unfolding login and_then on_error login_error run fail query ◌>>=◌ Accounts.find_active_account
    login_hides shut h = elim (Bool-cases (down "find active account" 0)) [
      | inl e ↦
          let l : (err (wrap "find login account" (failure "find active account")), db) ≡ (r, db') =
            (rw e at h) in
          (cc l, inr (cc l, inl e))
      | inr e ↦ by_found (find found db.users) refl shut (rw e at h)
    ]
