-- ===== src/Errors.antt =====
-- The error values of the modules' packages (`var Err… = errors.New(…)`), wrapping by
-- `fmt.Errorf("…: %w", err)`, and the results of fallible code.
use modura.Prelude.{String, Bool, true, false}

-- backend/internal/modules/identity/types.go
pub data IdentityError : Type 0 where
  invalid_credentials inactive_tenant inactive_user : IdentityError
  invalid_token expired_token refresh_reuse invalid_password : IdentityError

-- backend/internal/modules/authorization/types.go
pub data AuthorizationError : Type 0 where
  denied not_found conflict reserved : AuthorizationError

-- backend/internal/modules/organization/types.go
pub data OrganizationError : Type 0 where
  not_found cycle root_department in_use : OrganizationError

-- backend/internal/modules/platformtenant/service.go
pub data PlatformTenantError : Type 0 where
  not_found invalid_transition : PlatformTenantError

-- backend/internal/modules/platformadmin/service.go
pub data PlatformAdminError : Type 0 where
  invalid_credentials invalid_token bootstrap_complete : PlatformAdminError

-- backend/internal/modules/settings/types.go
pub data SettingsError : Type 0 where
  not_found conflict not_overridable : SettingsError

-- An error value. `driver` is what the database driver or another library reports, `message` a
-- value of `fmt.Errorf` that wraps nothing, `wrap` one that wraps another, and
-- `idempotency_conflict` the one error of backend/internal/modules/provisioning.
pub data Error : Type 0 where
  identity : IdentityError → Error
  authorization : AuthorizationError → Error
  organization : OrganizationError → Error
  platformtenant : PlatformTenantError → Error
  platformadmin : PlatformAdminError → Error
  settings : SettingsError → Error
  idempotency_conflict : Error
  driver : Error
  message : String → Error
  wrap : String → Error → Error

-- The value at the end of the chain that `errors.Is` follows.
abbrev pub cause : Error → Error
cause (wrap s e) = cause e
cause (identity e) = identity e
cause (authorization e) = authorization e
cause (organization e) = organization e
cause (platformtenant e) = platformtenant e
cause (platformadmin e) = platformadmin e
cause (settings e) = settings e
cause idempotency_conflict = idempotency_conflict
cause driver = driver
cause (message s) = message s

pub data Result {ℓ} (A : Type ℓ) : Type ℓ where
  ok : A → Result A
  err : Error → Result A

infixl 5 ◌>>=◌
abbrev pub ◌>>=◌ {ℓ κ} : {A : Type ℓ} {B : Type κ} → Result A → (A → Result B) → Result B
ok a >>= f = f a
err e >>= f = err e

-- `if err != nil { return fmt.Errorf("…: %w", err) }`
abbrev pub wrapped {ℓ} : {A : Type ℓ} → String → Result A → Result A
wrapped s (ok a) = ok a
wrapped s (err e) = err (wrap s e)

-- `if err != nil { return other }`
abbrev pub or_else {ℓ} : {A : Type ℓ} → Error → Result A → Result A
or_else other (ok a) = ok a
or_else other (err e) = err other

abbrev pub guard : Bool → Error → Result (Unit {0})
guard true e = ok tt
guard false e = err e
