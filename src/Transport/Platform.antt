-- ===== src/Transport/Platform.antt =====
-- The handlers for platform administrators: handler.go of backend/internal/modules/platformadmin and
-- platformtenant, in transport/http. `is_uuid` is whether uuid.Parse reads a text.
use Prim.Native.String.{String}
use modura.Prelude.{Bool, Option, none, some, List, [], all, if◌then◌else◌}
use modura.Errors.{Error, PlatformTenantError, platformtenant, cause, Result, ok, err}
use modura.Database.{Tenant}
use modura.Database.Tx.{Op}
use modura.Identity.Types.{Tokens}
use modura.PlatformAdmin.{PlatformActor}
use modura.Transport.{
  Request, Response, Body, Handler, Checked, answer, then_passed, attempt, problem_response, json,
  bearer, cookie_and_csrf, Security, AccessTokenResponse, write_tokens, clear_cookies,
}
use modura.Transport.Permissions.{internal, bad_request}

pub record PlatformAdminService : Type 0 where
  pub login : String → String → Op Tokens
  pub refresh : String → Op Tokens
  pub authenticate_access : String → Op PlatformActor
  pub logout : PlatformActor → Op (Unit {0})

pub record PlatformTenantService : Type 0 where
  pub list : PlatformActor → Op (List Tenant)
  pub suspend : PlatformActor → String → String → String → Op (Unit {0})
  pub reactivate : PlatformActor → String → String → String → Op (Unit {0})

pub record PlatformLoginRequest : Type 0 where
  pub username : String
  pub password : Option String

abbrev pub platform_refresh_cookie : String
platform_refresh_cookie = "modura_platform_refresh"

abbrev pub platform_csrf_cookie : String
platform_csrf_cookie = "modura_platform_csrf"

abbrev platform_path : String
platform_path = "/api/platform/auth"

abbrev unauthenticated : {A : Type 0} → Response A
unauthenticated = problem_response 401 "authentication failed"

abbrev no_content : Response (Unit {0})
no_content = record { status = 204; body = Body.no_content; cookies = [] }

abbrev pub platform_csrf : {A : Type 0} → Request → Checked A String
platform_csrf r = cookie_and_csrf r platform_refresh_cookie platform_csrf_cookie

module _ (service : PlatformAdminService) (security : Security) where
  abbrev tokens_of : Tokens → Response AccessTokenResponse
  tokens_of t =
      write_tokens security t.access_token t.refresh_token t.expires_in t.refresh_expires_in
        platform_refresh_cookie platform_csrf_cookie platform_path

  abbrev cleared : {A : Type 0} → Response A → Response A
  cleared r = record r {
    cookies = clear_cookies security platform_refresh_cookie platform_csrf_cookie platform_path;
  }

  abbrev authenticated :
      {A : Type 0} → (PlatformActor → Handler A) → Result PlatformActor → Handler A
  authenticated f (ok actor) = f actor
  authenticated f (err e) = answer unauthenticated

  -- Actor, and what the caller does with the actor.
  unfoldable pub with_platform_actor :
      {A : Type 0} → Request → (PlatformActor → Handler A) → Handler A
  with_platform_actor r f =
      then_passed (bearer r) λ token. attempt (service.authenticate_access token) (authenticated f)

  abbrev or_unauthenticated : Result Tokens → Handler AccessTokenResponse
  or_unauthenticated (ok t) = answer (tokens_of t)
  or_unauthenticated (err e) = answer unauthenticated

  abbrev login_with : String → Option String → Handler AccessTokenResponse
  login_with username none = answer bad_request
  login_with username (some password) = attempt (service.login username password) or_unauthenticated

  -- PlatformLogin
  unfoldable pub platform_login : Option PlatformLoginRequest → Handler AccessTokenResponse
  platform_login none = answer bad_request
  platform_login (some q) = login_with q.username q.password

  abbrev refreshed : Result Tokens → Handler AccessTokenResponse
  refreshed (ok t) = answer (tokens_of t)
  refreshed (err e) = answer (cleared unauthenticated)

  -- PlatformRefresh
  unfoldable pub platform_refresh : Request → Handler AccessTokenResponse
  platform_refresh r =
      then_passed (platform_csrf r) λ token. attempt (service.refresh token) refreshed

  abbrev logged_out : Result (Unit {0}) → Handler (Unit {0})
  logged_out (ok u) = answer (cleared no_content)
  logged_out (err e) = answer unauthenticated

  -- PlatformLogout
  unfoldable pub platform_logout : Request → Handler (Unit {0})
  unfolding with_platform_actor
  platform_logout r =
      then_passed (platform_csrf r)
        λ token. with_platform_actor r λ actor. attempt (service.logout actor) logged_out

  module _ (tenants : PlatformTenantService) (is_uuid : String → Bool) where
    tenants_listed : Result (List Tenant) → Handler (List Tenant)
    tenants_listed (ok ts) =
        answer (if all (λ (t : Tenant). is_uuid t.id) ts then json 200 ts else internal)
    tenants_listed (err e) = answer internal

    -- ListPlatformTenants
    unfoldable pub list_platform_tenants : Request → Handler (List Tenant)
    unfolding with_platform_actor tenants_listed
    list_platform_tenants r =
        with_platform_actor r λ actor. attempt (tenants.list actor) tenants_listed

    abbrev lifecycle_problem : Error → Response (Unit {0})
    lifecycle_problem (platformtenant PlatformTenantError.not_found) =
        problem_response 404 "not found"
    lifecycle_problem (platformtenant PlatformTenantError.invalid_transition) = bad_request
    lifecycle_problem _ = internal

    status_changed : Result (Unit {0}) → Handler (Unit {0})
    status_changed (ok u) = answer no_content
    status_changed (err e) = answer (lifecycle_problem (cause e))

    change_bound :
        (PlatformActor → String → String → String → Op (Unit {0}))
        → Request
        → String
        → Option String
        → PlatformActor
        → Handler (Unit {0})
    unfolding status_changed
    change_bound change r tenant none actor = answer bad_request
    change_bound change r tenant (some reason) actor =
        attempt (change actor tenant reason r.request_id) status_changed

    -- changeStatus; the body is a reason.
    unfoldable pub change_tenant_status :
        (PlatformActor → String → String → String → Op (Unit {0}))
        → Request
        → String
        → Option String
        → Handler (Unit {0})
    unfolding with_platform_actor change_bound
    change_tenant_status change r tenant reason =
        then_passed (platform_csrf r)
          λ token. with_platform_actor r (change_bound change r tenant reason)

    -- SuspendPlatformTenant
    unfoldable pub suspend_platform_tenant : Request → String → Option String → Handler (Unit {0})
    unfolding change_tenant_status
    suspend_platform_tenant = change_tenant_status tenants.suspend

    -- ReactivatePlatformTenant
    unfoldable pub reactivate_platform_tenant :
        Request → String → Option String → Handler (Unit {0})
    unfolding change_tenant_status
    reactivate_platform_tenant = change_tenant_status tenants.reactivate
