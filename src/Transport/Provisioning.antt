-- ===== src/Transport/Provisioning.antt =====
-- backend/internal/modules/provisioning/transport/http/handler.go. `is_uuid` is whether uuid.Parse reads
-- a text, `is_email` whether mail.ParseAddress reads a text as that very address.
use Prim.Native.Char.{code}
use Prim.Native.String.{String, count}
use modura.Prelude.{
  ℕ, Bool, true, false, not, ◌&&◌, ◌||◌, Option, none, some, blank, leb, nat_eq, if◌then◌else◌,
}
use modura.Errors.{Error, idempotency_conflict, cause, Result, ok, err}
use modura.Text.{trim_space}
use modura.Database.Tx.{Op}
use modura.PlatformAdmin.{PlatformActor}
use modura.Provisioning as Provisioning
use modura.Transport.{
  Request, Response, Handler, answer, then_passed, attempt, problem_response, json, Security,
}
use modura.Transport.Permissions.{internal, bad_request}
use modura.Transport.Platform.{PlatformAdminService, platform_csrf, with_platform_actor}

pub record ProvisionTenantRequest : Type 0 where
  pub slug : String
  pub display_name : String
  pub root_department_name : String
  pub administrator_username : String
  pub administrator_email : Option String
  pub reason : String

pub record ProvisionTenantResponse : Type 0 where
  pub tenant_id : String
  pub created : Bool

abbrev is_slug_end : ℕ → Bool
is_slug_end c = (leb 97 c && leb c 122) || (leb 48 c && leb c 57)

-- Characters of a slug, of which the last may end one.
slug_tail : String → Bool
slug_tail String.[] = false
slug_tail (String.◌∷◌ c String.[]) = is_slug_end (code c)
slug_tail (String.◌∷◌ c (String.◌∷◌ d s)) =
    (is_slug_end (code c) || nat_eq (code c) b'-') && slug_tail (String.◌∷◌ d s)

-- ^[a-z0-9](?:[a-z0-9-]{0,61}[a-z0-9])?$
unfoldable pub tenant_slug : String → Bool
unfolding slug_tail
tenant_slug String.[] = false
tenant_slug (String.◌∷◌ c String.[]) = is_slug_end (code c)
tenant_slug (String.◌∷◌ c (String.◌∷◌ d s)) =
    is_slug_end (code c) && slug_tail (String.◌∷◌ d s) && leb (count s) 61

unfoldable pub within : String → ℕ → Bool
within value maximum = not (blank (trim_space value)) && leb (count (trim_space value)) maximum

abbrev valid_email : (String → Bool) → Option String → Bool
valid_email is_email none = true
valid_email is_email (some email) = is_email email && leb (count email) 254

-- validRequest
unfoldable pub valid_request : (String → Bool) → ProvisionTenantRequest → Bool
unfolding tenant_slug within
valid_request is_email q =
    tenant_slug q.slug
    && within q.display_name 128
    && within q.root_department_name 128
    && within q.administrator_username 128
    && within q.reason 500
    && valid_email is_email q.administrator_email

module _ (admins : PlatformAdminService) (security : Security)
    (provision : Provisioning.Request → Op Provisioning.Provisioned)
    (is_uuid is_email : String → Bool) where
  abbrev email_or_blank : Option String → String
  email_or_blank none = ""
  email_or_blank (some email) = email

  abbrev provisioning_request :
      Request → String → ProvisionTenantRequest → PlatformActor → Provisioning.Request
  provisioning_request r key q actor = record {
    idempotency_key = key;
    slug = q.slug;
    display_name = q.display_name;
    root_department_name = q.root_department_name;
    administrator_username = q.administrator_username;
    administrator_email = email_or_blank q.administrator_email;
    actor = actor;
    reason = q.reason;
    correlation_id = r.request_id;
  }

  abbrev provision_problem : Error → Response ProvisionTenantResponse
  provision_problem idempotency_conflict = problem_response 409 "idempotency conflict"
  provision_problem _ = internal

  provisioned : Result Provisioning.Provisioned → Handler ProvisionTenantResponse
  provisioned (ok p) = answer (
      if is_uuid p.tenant_id
      then json (if p.created then 201 else 200)
          (record { tenant_id = p.tenant_id; created = p.created })
      else internal)
  provisioned (err e) = answer (provision_problem (cause e))

  provision_bound :
      Request
      → String
      → Option ProvisionTenantRequest
      → PlatformActor
      → Handler ProvisionTenantResponse
  unfolding provisioned valid_request
  provision_bound r key none actor = answer bad_request
  provision_bound r key (some q) actor =
      if valid_request is_email q
      then attempt (provision (provisioning_request r key q actor)) provisioned
      else answer bad_request

  -- ProvisionPlatformTenant, with the Idempotency-Key parameter
  unfoldable pub provision_platform_tenant :
      Request → String → Option ProvisionTenantRequest → Handler ProvisionTenantResponse
  unfolding with_platform_actor provision_bound
  provision_platform_tenant r key body =
      then_passed (platform_csrf r)
        λ token. with_platform_actor admins security r (provision_bound r key body)
