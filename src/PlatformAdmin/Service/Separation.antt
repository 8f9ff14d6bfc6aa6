-- ===== src/PlatformAdmin/Service/Separation.antt =====
-- Access tokens of tenants and of platform administrators are not taken for one another.
use modura.Prelude.{
  ℕ, String, Char, false, ◌==◌, ◌≡◌, ◌≢◌, refl, sym, ap, ◌∙◌, subst, any, blank, arith, false≢true,
  any_imply_false, eq_iff,
}
use modura.Errors.{ok}
use modura.Database.{AuthSession, Db}
use modura.Database.Tx.{Faults}
use modura.Database.Tx.Calls.{and_then-ok, on_error-ok, lifted-ok, refused-not_ok}
use modura.Identity.Types.{Actor}
use modura.Identity.Token.{
  AccessTokenSigner, AccessTokenVerifier, AccessTokenClaims, sign, sign_platform, verify,
}
use modura.Identity.Token.Signing.{IsFaithful, verify-same}
use modura.Identity.Types.{Session}
use modura.Identity.Sessions.{validates}
use modura.Identity.Sessions.Validation.{validate_session_sound}
use modura.Identity.Service
use modura.Identity.Service.Refreshing.{authenticate_access-valid}
use modura.PlatformAdmin.{PlatformActor}
use modura.PlatformAdmin.Service.{PlatformEnvironment, authenticate_access, authenticate_claims}

module _ (lower : Char → Char) (env : PlatformEnvironment) (down : Faults) where
  not_platform :
      (c : AccessTokenClaims) (db : Db) {a : PlatformActor} {db' : Db}
      → (c.principal_type == "platform") ≡ false
      → authenticate_claims lower env down c db ≢ (ok a, db')
  unfolding authenticate_claims
  not_platform c db h e = refused-not_ok _ db (rw h at e)

  sign-not_platform :
      (law : IsFaithful env.enc) (signer : AccessTokenSigner) (actor : Actor) (token_id : String)
      (version now : ℕ) {token : String} (db : Db) {a : PlatformActor} {db' : Db}
      → sign env.enc signer actor token_id version now ≡ ok token
      → authenticate_access lower env down token db ≢ (ok a, db')
  unfolding authenticate_access sign
  sign-not_platform law signer actor token_id version now db signed accepted =
      let (c, d, verified, rest) = and_then-ok _ _ db accepted in
      let (read, _) = lifted-ok _ db (on_error-ok _ _ db verified) in
      let same = verify-same env.enc law signer env.verifier _ (env.now 0) signed read in
      not_platform c d (ap (λ (x : AccessTokenClaims). x.principal_type == "platform") same ∙ refl)
        rest

  sign_platform-not_tenant :
      (law : IsFaithful env.enc) (env' : Service.Environment) (v : AccessTokenVerifier)
      (signer : AccessTokenSigner) (subject session token_id : String) (version now : ℕ)
      {token : String} (db : Db) {a : Actor} {db' : Db}
      → env'.verify_token ≡ verify env.enc v
      → any (λ (s : AuthSession). blank s.tenant_id) db.auth_sessions ≡ false
      → sign_platform env.enc signer subject session token_id version now ≡ ok token
      → Service.authenticate_access lower env' down token db ≢ (ok a, db')
  unfolding sign_platform
  sign_platform-not_tenant law env' v signer subject session token_id version now {token} db {a}
        verifies tenants signed accepted =
      let (c, d, read, _, _, valid) =
        authenticate_access-valid lower env' down env' token a db accepted in
      let same =
        verify-same env.enc law signer v _ (env'.now 0) signed
          (subst (λ f. f token (env'.now 0) ≡ ok c) verifies read) in
      let x = Service.session_of_claims lower env' down c in
      false≢true (
        sym (
          any_imply_false _ _ db.auth_sessions tenants
            (λ s k. no_tenant s x (ap (λ (z : AccessTokenClaims). z.tenant_id) same) k))
        ∙ validate_session_sound down x (env'.now 1) db valid)
    where
      no_tenant :
          (s : AuthSession) (x : Session)
          → x.tenant_id ≡ ""
          → blank s.tenant_id ≡ false
          → validates x (env'.now 1) db s ≡ false
      no_tenant s x e k = ground (arith, eq_iff s.tenant_id x.tenant_id, eq_iff s.tenant_id "")

-- Access tokens are kept apart. A token that `Sign` made for a tenant's user never authenticates a
-- platform administrator; and one that `SignPlatform` made never authenticates a tenant's user, where
-- the identity service verifies by the same encodings and every session has a tenant. Both hold
-- whatever the keys, issuers, audiences, clocks and databases are, also if they are shared.
pub tokens_apart :
    (lower : Char → Char) (env : PlatformEnvironment) (env' : Service.Environment)
    (v : AccessTokenVerifier) (signer : AccessTokenSigner) (down : Faults) (db : Db)
    → IsFaithful env.enc
    → env'.verify_token ≡ verify env.enc v
    → any (λ (s : AuthSession). blank s.tenant_id) db.auth_sessions ≡ false
    → ((actor : Actor) (token_id token : String) (version now : ℕ) (a : PlatformActor) (db' : Db)
        → sign env.enc signer actor token_id version now ≡ ok token
        → authenticate_access lower env down token db ≢ (ok a, db'))
      × ((subject session token_id token : String) (version now : ℕ) (a : Actor) (db' : Db)
          → sign_platform env.enc signer subject session token_id version now ≡ ok token
          → Service.authenticate_access lower env' down token db ≢ (ok a, db'))
tokens_apart lower env env' v signer down db law verifies tenants = (
  λ actor token_id token version now a db' signed.
      sign-not_platform lower env down law signer actor token_id version now db signed,
  λ subject session token_id token version now a db' signed.
      sign_platform-not_tenant lower env down law env' v signer subject session token_id version now
        db verifies tenants signed,
)
