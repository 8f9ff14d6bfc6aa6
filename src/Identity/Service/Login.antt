-- ===== src/Identity/Service/Login.antt =====
-- Login: what it starts.
use modura.Prelude.{
  ℕ, String, Char, Bool, true, false, ◌&&◌, ◌≡◌, refl, sym, subst, ◌∙◌, any, arith, ◌==◌, eq_refl,
  nat_eq,
}
use modura.Errors.{Result, ok, err}
use modura.Database.{Db, AuthSession}
use modura.Database.Tx.{Faults}
use modura.Database.Tx.Rules.{ensures_pure, then_exec}
use modura.Database.Tx.Runs.{labelled_call-ok, run-ensures}
use modura.Database.Tx.Calls.{and_then-ok, on_error-ok, lifted-ok, refused-not_ok}
use modura.Identity.Types.{Account, Tokens}
use modura.Identity.Rows.{is_live}
use modura.Identity.Sessions
use modura.Identity.Accounts
use modura.Identity.Service.{
  Environment, login, after_verify, normalize_login, start_session, first_session,
}
use modura.Identity.Service.Refreshing.{sign_access-keeps}

module _ (lower : Char → Char) (env : Environment) (down : Faults) (slug name password : String)
    (server_now : ℕ) (db : Db) where
  -- The call that looks the account up.
  abbrev pub lookup : Result Account × Db
  lookup =
      Accounts.find_active_account down (normalize_login lower env down slug)
        (normalize_login lower env down name) db

  abbrev pub outcome : Result Tokens × Db
  outcome = login lower env down slug name password server_now db

  -- A live session of the account under the digest of the secret.
  abbrev pub is_session_of : Account → String → AuthSession → Bool
  is_session_of a secret s =
      s.tenant_id == a.tenant_id
      && s.user_id == a.user_id
      && nat_eq s.security_version a.security_version
      && s.refresh_token_hash == env.hash_token secret
      && is_live s

  create_session-live :
      (a : Account) (id family secret : String) (d : Db) {d' : Db}
      → Sessions.create_session down (first_session lower env down a id family secret (env.now 0)) d
        ≡ (ok tt, d')
      → any (is_session_of a secret) d'.auth_sessions ≡ true
  unfolding Sessions.create_session
  create_session-live a id family secret d k =
      run-ensures {P = λ r x. any (is_session_of a secret) x.auth_sessions ≡ true}
        (then_exec _ _ _ _ _ _ (
          ensures_pure _ (
            ground
              (arith, eq_refl a.tenant_id, eq_refl a.user_id, eq_refl (env.hash_token secret)))))
        k

  start_session-live :
      (a : Account) (t : Tokens) (d : Db) {d' : Db}
      → start_session lower env down a d ≡ (ok t, d')
      → any (is_session_of a t.refresh_token) d'.auth_sessions ≡ true
  unfolding start_session
  start_session-live a t d {d'} h =
      let (id, d1, h1, k1) = and_then-ok _ _ d h in
      let (family, d2, h2, k2) = and_then-ok _ _ d1 k1 in
      let (secret, d3, h3, k3) = and_then-ok _ _ d2 k2 in
      let (u, d4, h4, k4) = and_then-ok _ _ d3 k3 in
      let (access, d5, h5, k5) = and_then-ok _ _ d4 k4 in
      let (made, same5) = lifted-ok _ d5 k5 in
      let same4 = sign_access-keeps lower env down 2 _ (env.now 0) d4 h5 in
      let same_secret : t.refresh_token ≡ secret = cc made in
      subst (λ x. any (is_session_of a t.refresh_token) x.auth_sessions ≡ true)
        (sym (same5 ∙ same4))
        (subst (λ z. any (is_session_of a z) d4.auth_sessions ≡ true) (sym same_secret)
          (create_session-live a id family secret d3 (labelled_call-ok _ _ d3 h4)))

  -- The account that the lookup found and the password proved, and a session of it.
  pub record HasStarted (t : Tokens) (db' : Db) : Type 0 where
    pub account : Account
    pub left : Db
    pub found : lookup ≡ (ok account, left)
    pub needs_rehash : Bool
    pub proved : env.verify_password password account.password_hash ≡ ok (true, needs_rehash)
    pub session : any (is_session_of account t.refresh_token) db'.auth_sessions ≡ true

  after_verify-live :
      (a : Account) (r : Result (Bool × Bool)) (t : Tokens) (d : Db) {db' : Db}
      → after_verify lower env down a password server_now r d ≡ (ok t, db')
      → (needs_rehash : Bool) × (r ≡ ok (true, needs_rehash))
        × (any (is_session_of a t.refresh_token) db'.auth_sessions ≡ true)
  unfolding after_verify
  after_verify-live a (err e) t d h = absurd (refused-not_ok _ d h)
  after_verify-live a (ok (false, b)) t d h = absurd (refused-not_ok _ d h)
  after_verify-live a (ok (true, false)) t d h = (false, refl, start_session-live a t d h)
  after_verify-live a (ok (true, true)) t d h =
      let (u, d1, h1, k1) = and_then-ok _ _ d h in (true, refl, start_session-live a t d1 k1)

  -- A login that succeeds has found the account and proved its password, and leaves a live session
  -- of that account, under its security version and the digest of the refresh token that is
  -- returned.
  pub login_sound : (t : Tokens) (db' : Db) → outcome ≡ (ok t, db') → HasStarted t db'
  unfolding login
  login_sound t db' h =
      let (a, d, h1, k1) = and_then-ok _ _ db h in
      let (needs_rehash, proved, live) = after_verify-live a _ t d k1 in
      record {
        account = a;
        left = d;
        found = on_error-ok _ _ db h1;
        needs_rehash = needs_rehash;
        proved = proved;
        session = live;
      }
