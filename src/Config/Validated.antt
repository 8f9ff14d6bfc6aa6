-- ===== src/Config/Validated.antt =====
-- What a configuration that `FromEnv` returns has, for the services that main.go builds from it.
use Prim.Native.String.{count}
use modura.Prelude.{
  ℕ, ℤ, pos, negsuc, zero, suc, ◌<◌, String, true, false, Option, ◌≡◌, refl, subst, blank, ltb,
  arith, inl, inr, Bool-cases,
}
use modura.Errors.{Result, ok, err, ◌>>=◌}
use modura.Text.{trim_space}
use modura.Identity.Token.{AccessTokenSigner, new_access_token_signer}
use modura.Config.{
  HttpConfig, AuthConfig, Config, env_or_default, duration, integer, boolean, http_from_env,
  auth_from_env, with_auth, rest_from_env, from_env, positive,
}

bind-ok :
    {A B : Type 0} (r : Result A) (f : A → Result B) {b : B}
    → (r >>= f) ≡ ok b
    → (a : A) × (r ≡ ok a) × (f a ≡ ok b)
bind-ok (ok a) f h = (a, refl, h)
bind-ok (err e) f h = cc

returned : {A : Type 0} (P : A → Type 0) {x y : A} → Path (Result A) (ok x) (ok y) → P x → P y
returned P h = subst P (cc h)

positive-ok : (name : String) (z : ℤ) {n : ℕ} → positive name z ≡ ok n → 0 < n
positive-ok name (pos zero) h = cc
positive-ok name (pos (suc k)) h = subst (λ n. 0 < n) (cc h) (let e : 0 < suc k = omega arith in e)
positive-ok name (negsuc k) h = cc

module _ (getenv : String → String) (parse_duration : String → Option ℤ) where
  pub env_or_default-named :
      (name fallback : String)
      → blank fallback ≡ false
      → blank (env_or_default getenv parse_duration name fallback) ≡ false
  unfolding env_or_default
  env_or_default-named name fallback h = elim (Bool-cases (blank (getenv name))) [
    | inl e ↦ rw e h
    | inr e ↦ rw (e, e)
  ]

  duration-ok :
      (name : String) (fallback : ℕ) {n : ℕ}
      → 0 < fallback
      → duration getenv parse_duration name fallback ≡ ok n
      → 0 < n
  unfolding duration
  duration-ok name fallback given h = elim (Bool-cases (blank (getenv name))) [
    | inl e ↦ subst (λ n. 0 < n) (cc (rw e at h)) given
    | inr e ↦
        let (z, parsed, bounded) = bind-ok _ (positive name) (rw e at h) in
        positive-ok name z bounded
  ]

  integer-ok :
      (name : String) (fallback : ℕ) {n : ℕ}
      → 0 < fallback
      → integer getenv parse_duration name fallback ≡ ok n
      → 0 < n
  unfolding integer
  integer-ok name fallback given h = elim (Bool-cases (blank (getenv name))) [
    | inl e ↦ subst (λ n. 0 < n) (cc (rw e at h)) given
    | inr e ↦
        let (z, parsed, bounded) = bind-ok _ (positive name) (rw e at h) in
        positive-ok name z bounded
  ]

  pub record IsServing (h : HttpConfig) : Type 0 where
    pub read : 0 < h.read_timeout
    pub write : 0 < h.write_timeout
    pub idle : 0 < h.idle_timeout
    pub shutdown : 0 < h.shutdown_timeout
    pub max_header : 0 < h.max_header_bytes

  http_from_env-IsServing :
      {h : HttpConfig} → http_from_env getenv parse_duration ≡ ok h → IsServing h
  unfolding http_from_env
  http_from_env-IsServing e =
      let (read, a, e1) = bind-ok _ _ e in
      let (write, b, e2) = bind-ok _ _ e1 in
      let (idle, c, e3) = bind-ok _ _ e2 in
      let (shutdown, d, e4) = bind-ok _ _ e3 in
      let (max_header, f, e5) = bind-ok _ _ e4 in
      let (secure, g, e6) =
        bind-ok (boolean getenv parse_duration "MODURA_AUTH_COOKIE_SECURE" true) _ e5 in
      returned IsServing e6 (record {
        read = duration-ok _ _ (omega arith) a;
        write = duration-ok _ _ (omega arith) b;
        idle = duration-ok _ _ (omega arith) c;
        shutdown = duration-ok _ _ (omega arith) d;
        max_header = integer-ok _ _ (omega arith) f;
      })

  -- The signer of main.go for an audience.
  abbrev pub signer_of : AuthConfig → String → AccessTokenSigner
  signer_of a audience = record {
    issuer = a.issuer;
    audience = audience;
    key_id = a.signing_key_id;
    key = a.signing_key;
    lifetime = a.access_lifetime;
  }

  pub record IsSigning (a : AuthConfig) : Type 0 where
    pub issuer : blank a.issuer ≡ false
    pub audience : blank a.audience ≡ false
    pub platform_audience : blank a.platform_audience ≡ false
    pub key_id : blank a.signing_key_id ≡ false
    pub access : 0 < a.access_lifetime
    pub refresh : 0 < a.refresh_lifetime
    pub invitation : 0 < a.invitation_lifetime
    pub key : a.signing_key ≡ getenv "MODURA_AUTH_SIGNING_KEY"

  auth_from_env-IsSigning :
      {a : AuthConfig} → auth_from_env getenv parse_duration ≡ ok a → IsSigning a
  unfolding auth_from_env
  auth_from_env-IsSigning e =
      let (access, a, e1) = bind-ok _ _ e in
      let (refresh, b, e2) = bind-ok _ _ e1 in
      let (invitation, c, e3) = bind-ok _ _ e2 in
      returned IsSigning e3 (record {
        issuer = env_or_default-named _ _ refl;
        audience = env_or_default-named _ _ refl;
        platform_audience = env_or_default-named _ _ refl;
        key_id = env_or_default-named _ _ refl;
        access = duration-ok _ _ (omega arith) a;
        refresh = duration-ok _ _ (omega arith) b;
        invitation = duration-ok _ _ (omega arith) c;
        key = refl;
      })

  signer_accepted :
      (a : AuthConfig) (audience : String)
      → IsSigning a
      → blank audience ≡ false
      → ltb (count a.signing_key) 32 ≡ false
      → new_access_token_signer a.issuer audience a.signing_key_id a.signing_key a.access_lifetime
        ≡ ok (signer_of a audience)
  unfolding new_access_token_signer
  signer_accepted a audience k named long =
      rw (k.issuer, named, k.key_id, long) (let e = k.access in ground arith)

  -- A configuration that `FromEnv` returns is one that the services start with: it has a database,
  -- its timeouts, limits and lifetimes are positive, and both access token signers that main.go
  -- makes from it, for the tenants and for the platform, are admitted.
  pub from_env-starts :
      {c : Config}
      → from_env getenv parse_duration ≡ ok c
      → (blank c.database_url ≡ false)
        × IsServing c.http
        × IsSigning c.auth
        × (new_access_token_signer c.auth.issuer c.auth.audience c.auth.signing_key_id
              c.auth.signing_key c.auth.access_lifetime
            ≡ ok (signer_of c.auth c.auth.audience))
        × (new_access_token_signer c.auth.issuer c.auth.platform_audience c.auth.signing_key_id
              c.auth.signing_key c.auth.access_lifetime
            ≡ ok (signer_of c.auth c.auth.platform_audience))
  unfolding from_env rest_from_env
  from_env-starts {c} e =
      let (http, served, rest) =
        bind-ok (http_from_env getenv parse_duration) (rest_from_env getenv parse_duration) e in
      elim (Bool-cases (blank (trim_space (getenv "MODURA_DATABASE_URL")))) [
        | inl missing ↦ cc (rw missing at rest)
        | inr there ↦ elim (Bool-cases (ltb (count (getenv "MODURA_AUTH_SIGNING_KEY")) 32)) [
          | inl short ↦ cc (rw (there, short) at rest)
          | inr long ↦
              let (auth, read, last) =
                bind-ok (auth_from_env getenv parse_duration) (with_auth getenv parse_duration http)
                  (rw (there, long) at rest) in
              let k = auth_from_env-IsSigning read in
              let key : ltb (count auth.signing_key) 32 ≡ false = rw k.key long in
              returned
                (λ (c : Config).
                  (blank c.database_url ≡ false)
                  × IsServing c.http
                  × IsSigning c.auth
                  × (new_access_token_signer c.auth.issuer c.auth.audience c.auth.signing_key_id
                        c.auth.signing_key c.auth.access_lifetime
                      ≡ ok (signer_of c.auth c.auth.audience))
                  × (new_access_token_signer c.auth.issuer c.auth.platform_audience
                        c.auth.signing_key_id c.auth.signing_key c.auth.access_lifetime
                      ≡ ok (signer_of c.auth c.auth.platform_audience)))
                last
                (
                  there,
                  http_from_env-IsServing served,
                  k,
                  signer_accepted auth auth.audience k k.audience key,
                  signer_accepted auth auth.platform_audience k k.platform_audience key,
                )
        ]
      ]
