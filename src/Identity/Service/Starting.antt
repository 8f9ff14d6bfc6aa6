-- ===== src/Identity/Service/Starting.antt =====
-- The session that a successful login starts, and the account that it is of.
use modura.Prelude.{
  ℕ, String, Char, Bool, true, false, ◌∷◌, ◌≡◌, refl, sym, subst, ap, ◌∙◌, any, blank,
}
use modura.Errors.{Result, ok, err}
use modura.Database.{Db}
use modura.Database.Constraints.{constraints}
use modura.Database.Tx.{Faults}
use modura.Database.Tx.Rules.{ensures_pure, then_exec_held}
use modura.Database.Tx.Runs.{labelled_call-ok, run-ensures}
use modura.Database.Tx.Calls.{on_error-ok, lifted-ok, refused-not_ok, called, drawn}
use modura.Identity.Types.{Account, NewSession, Session, Tokens}
use modura.Identity.Sessions
use modura.Identity.Sessions.{session_row, validates}
use modura.Identity.Accounts
use modura.Identity.Service.{
  Environment, login, after_verify, rehash, start_session, first_session, sign_access,
  normalize_login,
}
use modura.Identity.Accounts.Activity.{
  IsActive, unnamed, find_active_account-Finds, update_password_hash-IsActive,
}

module _ (lower : Char → Char) (env : Environment) (down : Faults) where
  -- The session that a login starts, with what was generated for it and the token that is signed.
  pub record IsStarted (a : Account) (d : Db) (t : Tokens) (db' : Db) : Type 0 where
    pub id : String
    pub family : String
    pub token_id : String
    pub id_drawn : env.new_id 0 (env.now 0) ≡ ok id
    pub token_drawn : env.new_id 2 (env.now 0) ≡ ok token_id
    pub signed :
        env.sign
          (record { tenant_id = a.tenant_id; user_id = a.user_id; session_id = id })
          token_id
          a.security_version
          (env.now 0)
        ≡ ok t.access_token
    pub stored : db' ≡ record d {
      auth_sessions =
          session_row (first_session lower env down a id family t.refresh_token (env.now 0))
          ∷ d.auth_sessions;
    }
    pub held : constraints db' ≡ true

  sign_access-signs :
      (k : ℕ) (x : Session) (now : ℕ) (d : Db) {access : String} {d' : Db}
      → sign_access lower env down k x now d ≡ (ok access, d')
      → (token_id : String) × (env.new_id k now ≡ ok token_id)
        × (env.sign
              (record { tenant_id = x.tenant_id; user_id = x.user_id; session_id = x.id })
              token_id
              x.security_version
              now
            ≡ ok access)
        × (d' ≡ d)
  unfolding sign_access
  sign_access-signs k x now d h = drawn _ _ _ d h λ token_id named rest.
      let (signed, same) = lifted-ok _ d (labelled_call-ok _ _ d rest) in
      (token_id, named, signed, same)

  create_session-stores :
      (n : NewSession) (d : Db) {d' : Db}
      → Sessions.create_session down n d ≡ (ok tt, d')
      → (d' ≡ record d { auth_sessions = session_row n ∷ d.auth_sessions })
        × (constraints d' ≡ true)
  unfolding Sessions.create_session
  create_session-stores n d h =
      run-ensures {db = d}
        {P = λ r x.
          (x ≡ record d { auth_sessions = session_row n ∷ d.auth_sessions })
          × (constraints x ≡ true)}
        (then_exec_held _ _ _ _ _ _ λ held. ensures_pure _ (refl, held)) h

  start_session-IsStarted :
      (a : Account) (t : Tokens) (d : Db) {db' : Db}
      → start_session lower env down a d ≡ (ok t, db')
      → IsStarted a d t db'
  unfolding start_session
  start_session-IsStarted a t d {db'} h = drawn _ _ _ d h λ id id_drawn h1.
      drawn _ _ _ d h1 λ family family_drawn h2. drawn _ _ _ d h2 λ secret secret_drawn h3.
        called _ _ d h3 λ u d4 created h4. called _ _ d4 h4 λ access d5 signing h5.
          let (stored, held) = create_session-stores _ d (labelled_call-ok _ _ d created) in
          let (token_id, token_drawn, signed, same5) = sign_access-signs 2 _ _ d4 signing in
          let (made, same6) = lifted-ok _ d5 h5 in
          let same : db' ≡ d4 = same6 ∙ same5 in
          record {
            id = id;
            family = family;
            token_id = token_id;
            id_drawn = id_drawn;
            token_drawn = token_drawn;
            signed = signed ∙ ap ok (cc made);
            stored =
                subst
                  (λ z. db' ≡ record d {
                    auth_sessions =
                        session_row (first_session lower env down a id family z (env.now 0))
                        ∷ d.auth_sessions;
                  })
                  (cc made) (same ∙ stored);
            held = subst (λ x. constraints x ≡ true) (sym same) held;
          }

  after_verify-IsStarted :
      (a : Account) (password : String) (server_now : ℕ) (r : Result (Bool × Bool)) (t : Tokens)
      (d : Db) {db' : Db}
      → after_verify lower env down a password server_now r d ≡ (ok t, db')
      → IsActive a d
      → (d1 : Db) × IsStarted a d1 t db' × IsActive a d1
  unfolding after_verify rehash
  after_verify-IsStarted a password server_now (err e) t d h active = absurd (refused-not_ok _ d h)
  after_verify-IsStarted a password server_now (ok (false, b)) t d h active =
      absurd (refused-not_ok _ d h)
  after_verify-IsStarted a password server_now (ok (true, false)) t d h active =
      (d, start_session-IsStarted a t d h, active)
  after_verify-IsStarted a password server_now (ok (true, true)) t d h active =
      called _ _ d h λ u d1 rehashing started. drawn _ _ _ d rehashing λ hash hashed updating. (
        d1,
        start_session-IsStarted a t d1 started,
        update_password_hash-IsActive down a.tenant_id a.user_id hash server_now a d
            (labelled_call-ok _ _ d updating) active,
      )

  -- The account that a login has found, and the session that it starts.
  pub record IsAdmitted (slug name password : String) (db : Db) (t : Tokens) (db' : Db)
      : Type 0 where
    pub account : Account
    pub found : Accounts.find_active_account down slug name db ≡ (ok account, db)
    pub before : Db
    pub started : IsStarted account before t db'
    pub active : IsActive account before
    pub tenant_named : blank account.tenant_id ≡ false
    pub user_named : blank account.user_id ≡ false

  pub login-IsAdmitted :
      (slug name password : String) (server_now : ℕ) (db : Db) (t : Tokens) {db' : Db}
      → any unnamed db.users ≡ false
      → login lower env down slug name password server_now db ≡ (ok t, db')
      → IsAdmitted
          (normalize_login lower env down slug)
          (normalize_login lower env down name)
          password
          db
          t
          db'
  unfolding login
  login-IsAdmitted slug name password server_now db t named h = called _ _ db h λ a d first rest.
      let found = on_error-ok _ _ db first in
      let (same, active, tenant_named, user_named) =
        find_active_account-Finds down _ _ db found named in
      let (d1, started, still) =
        after_verify-IsStarted a password server_now _ t d rest
          (subst (IsActive a) (sym same) active) in
      record {
        account = a;
        found =
            subst
              (λ x.
                Accounts.find_active_account down (normalize_login lower env down slug)
                  (normalize_login lower env down name) db
                ≡ (ok a, x))
              same found;
        before = d1;
        started = started;
        active = still;
        tenant_named = tenant_named;
        user_named = user_named;
      }
