-- ===== src/Identity/Service/Refreshing.antt =====
-- Refresh tokens at the level of the service.
use modura.Prelude.{
  any-update_where-false, false≢true, ℕ, ◌+◌, String, Char, false, ◌≡◌, ◌≢◌, sym, subst, ◌∙◌, blank,
  Bool-cases, inl, inr, any, arith,
}
use modura.Errors.{ok}
use modura.Database.{Db}
use modura.Database.Tx.{Faults, run}
use modura.Database.Tx.Rules.{ensures_pure, then_exec}
use modura.Database.Tx.Runs.{labelled_call-ok, run-ensures}
use modura.Database.Tx.Calls.{and_then-ok, on_error-ok, lifted-ok, refused-not_ok}
use modura.Identity.Types.{Actor, Session, Tokens}
use modura.Identity.Rows.{is_live_of}
use modura.Identity.Sessions
use modura.Identity.Sessions.Rotation.{rotate_session_once}
use modura.Identity.Sessions.Validation.{validate_session_sound, validates-no_live}
use modura.Identity.Token.{AccessTokenClaims}
use modura.Identity.Service.{
  Environment, refresh, continued, sign_access, logout_all, authenticate_access,
  authenticate_claims, session_of_claims,
}

module _ (lower : Char → Char) (env : Environment) (down : Faults) where
  -- What a successful refresh has done: a secret was generated, and the session was rotated to it.
  pub record IsRefresh (token : String) (db : Db) (t : Tokens) (db' : Db) : Type 0 where
    pub session : Session
    pub drawn : env.new_secret ≡ ok t.refresh_token
    pub rotated :
        Sessions.rotate_session down
          (env.hash_token token)
          (env.hash_token t.refresh_token)
          (env.now 0)
          (env.now 0 + env.refresh_lifetime)
          db
        ≡ (ok session, db')
    pub given : blank token ≡ false

  pub sign_access-keeps :
      (k : ℕ) (x : Session) (now : ℕ) (db : Db) {s : String} {db' : Db}
      → sign_access lower env down k x now db ≡ (ok s, db')
      → db' ≡ db
  unfolding sign_access
  sign_access-keeps k x now db h =
      let (id, d1, first, then) = and_then-ok _ _ db h in
      let (_, same1) = lifted-ok _ db (labelled_call-ok _ _ db first) in
      let (_, same2) = lifted-ok _ d1 (labelled_call-ok _ _ d1 then) in same2 ∙ same1

  continued-keeps :
      (x : Session) (secret : String) (db : Db) {t : Tokens} {db' : Db}
      → continued lower env down x secret db ≡ (ok t, db')
      → (t.refresh_token ≡ secret) × (db' ≡ db)
  unfolding continued
  continued-keeps x secret db {t} h =
      let (access, d1, first, then) = and_then-ok _ _ db h in
      let (same, kept) = lifted-ok _ d1 then in
      (cc same, kept ∙ sign_access-keeps 0 x (env.now 0) db first)

  refresh-IsRefresh :
      (token : String) (t : Tokens) (db : Db) {db' : Db}
      → refresh lower env down token db ≡ (ok t, db')
      → IsRefresh token db t db'
  unfolding refresh
  refresh-IsRefresh token t db {db'} h = elim (Bool-cases (blank token)) [
    | inl e ↦ absurd (refused-not_ok _ db (rw e at h))
    | inr e ↦
        let (secret, d1, first, then) = and_then-ok _ _ db (rw e at h) in
        let (drawn, same1) = lifted-ok _ db (labelled_call-ok _ _ db first) in
        let (x, d2, second, last) = and_then-ok _ _ d1 then in
        let rotated = on_error-ok _ _ d1 second in
        let (same_secret, same2) = continued-keeps x secret d2 last in
        record {
          session = x;
          drawn = cc;
          rotated = refreshed same_secret same1 same2 rotated;
          given = e;
        }
  ]
    where
      refreshed :
          {secret : String} {x : Session} {d1 d2 : Db}
          → t.refresh_token ≡ secret
          → d1 ≡ db
          → db' ≡ d2
          → Sessions.rotate_session down
              (env.hash_token token)
              (env.hash_token secret)
              (env.now 0)
              (env.now 0 + env.refresh_lifetime)
              d1
            ≡ (ok x, d2)
          → Sessions.rotate_session down
              (env.hash_token token)
              (env.hash_token t.refresh_token)
              (env.now 0)
              (env.now 0 + env.refresh_lifetime)
              db
            ≡ (ok x, db')
      refreshed a b c k = cc

-- A refresh token is good for one refresh: after a successful one, no refresh with the same token
-- succeeds in the database that it left, whatever the clock, the generators and the driver do,
-- while the digest of tokens stays the same.
pub refresh_once :
    (lower : Char → Char) (env env' : Environment) (down down' : Faults) (token : String) (db : Db)
    {t t' : Tokens} {db' db'' : Db}
    → env.hash_token token ≡ env'.hash_token token
    → refresh lower env down token db ≡ (ok t, db')
    → refresh lower env' down' token db' ≢ (ok t', db'')
refresh_once lower env env' down down' token db {t} {t'} {db'} {db''} same first again =
    let a = refresh-IsRefresh lower env down token t db first in
    let b = refresh-IsRefresh lower env' down' token t' db' again in
    rotate_session_once down (env.hash_token token) (env.hash_token t.refresh_token) (env.now 0)
      (env.now 0 + env.refresh_lifetime) db a.session db' down' (env'.hash_token t'.refresh_token)
      (env'.now 0) (env'.now 0 + env'.refresh_lifetime) b.session db'' a.rotated
      (subst
        (λ h.
          Sessions.rotate_session down' h (env'.hash_token t'.refresh_token) (env'.now 0)
            (env'.now 0 + env'.refresh_lifetime) db'
          ≡ (ok b.session, db''))
        (sym same) b.rotated)

module _ (lower : Char → Char) (env : Environment) (down : Faults) where
  logout_all-dead :
      (a : Actor) (db : Db) {db' : Db}
      → logout_all lower env down a db ≡ (ok tt, db')
      → any (is_live_of a.tenant_id a.user_id) db'.auth_sessions ≡ false
  unfolding logout_all run Sessions.revoke_all_sessions
  logout_all-dead a db h =
      run-ensures {P = λ r d. any (is_live_of a.tenant_id a.user_id) d.auth_sessions ≡ false}
        (then_exec _ _ _ _ _ _ (
          ensures_pure _
            (any-update_where-false _ _ _ db.auth_sessions (λ s k. ground arith) (λ s k. k))))
        h

  pub authenticate_access-valid :
      (env' : Environment) (token : String) (a : Actor) (db : Db) {db' : Db}
      → authenticate_access lower env' down token db ≡ (ok a, db')
      → (c : AccessTokenClaims) × (d : Db) × (env'.verify_token token (env'.now 0) ≡ ok c)
        × (a.tenant_id ≡ c.tenant_id)
        × (a.user_id ≡ c.subject)
        × (Sessions.validate_session down (session_of_claims lower env' down c) (env'.now 1) db
            ≡ (ok tt, d))
  unfolding authenticate_access authenticate_claims
  authenticate_access-valid env' token a db h =
      let (c, d1, first, then) = and_then-ok _ _ db h in
      let (verified, same1) = lifted-ok _ db (on_error-ok _ _ db first) in
      let (u, d2, second, last) = and_then-ok _ _ d1 then in
      let (made, same2) = lifted-ok _ d2 last in
      (
        c,
        d2,
        verified,
        cc made,
        cc made,
        subst
            (λ x.
              Sessions.validate_session down (session_of_claims lower env' down c) (env'.now 1) x
              ≡ (ok tt, d2))
            same1 (on_error-ok _ _ d1 second),
      )

  -- After a logout from all sessions no access token of the user is accepted in the database that
  -- it left, whatever the clock and the keys of the tokens are.
  logout_all_rejects :
      (a b : Actor) (db : Db) (env' : Environment) (token : String) {db' db'' : Db}
      → logout_all lower env down a db ≡ (ok tt, db')
      → b.tenant_id ≡ a.tenant_id
      → b.user_id ≡ a.user_id
      → authenticate_access lower env' down token db' ≢ (ok b, db'')
  logout_all_rejects a b db env' token {db'} done same_tenant same_user accepted =
      let (c, d, _, tenant, user, valid) = authenticate_access-valid env' token b db' accepted in
      let x = session_of_claims lower env' down c in
      false≢true (
        sym (
          validates-no_live x (env'.now 1) db'
            (rw (sym tenant, sym user, same_tenant, same_user) (logout_all-dead a db done)))
        ∙ validate_session_sound down x (env'.now 1) db' valid)
