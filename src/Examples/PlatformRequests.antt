-- ===== src/Examples/PlatformRequests.antt =====
-- Requests of platform administrators, over the services as they are.
use modura.Prelude.{true, some, none, ◌≡◌, refl, ◌==◌, ◌||◌, if◌then◌else◌}
use modura.Errors.{ok}
use modura.Database.{Db}
use modura.Database.Tx.{Op}
use modura.PlatformAdmin.Service as Admins
use modura.Tenancy
use modura.Provisioning as Provisioning
use modura.Settings.Service as SettingsOps
use modura.Transport.{Request, Response, Security, problem_response}
use modura.Transport.Platform.{
  PlatformAdminService, PlatformTenantService, platform_refresh, platform_logout,
  suspend_platform_tenant, reactivate_platform_tenant,
}
use modura.Transport.PlatformSettings.{
  PlatformSettingsService, replace_platform_dictionary, put_platform_configuration,
}
use modura.Transport.Provisioning.{provision_platform_tenant}
use modura.Transport.PlatformProtection.{PlatformBodies, platform_unverified_refused}
use modura.Examples.{up, sample}
use modura.Examples.Tokens.{same_rune, platform}
use modura.Examples.Provisions
use modura.Examples.Dictionaries.{marshal, orders, any_json, no_json, same_text, event_id, new_id}

abbrev admins : PlatformAdminService
admins = record {
  login = Admins.login same_rune platform up;
  refresh = Admins.refresh same_rune platform up;
  authenticate_access = Admins.authenticate_access same_rune platform up;
  logout = Admins.logout same_rune platform up;
}

abbrev tenants : PlatformTenantService
tenants = record {
  list = Tenancy.list_for up;
  suspend = Tenancy.suspend up event_id 50;
  reactivate = Tenancy.reactivate up event_id 50;
}

abbrev provisioning : Provisioning.Request → Op Provisioning.Provisioned
provisioning = Provisioning.provision same_rune Provisions.env Provisions.modules up

abbrev settings : PlatformSettingsService
settings = record {
  list_global_dictionaries =
      SettingsOps.list_global_dictionaries same_rune marshal same_text no_json any_json event_id
        new_id up orders 50;
  replace_global_dictionary =
      SettingsOps.replace_global_dictionary same_rune marshal same_text no_json any_json event_id
        new_id up orders 50;
  list_global_configurations =
      SettingsOps.list_global_configurations same_rune marshal same_text no_json any_json event_id
        new_id up orders 50;
  put_global_configuration =
      SettingsOps.put_global_configuration same_rune marshal same_text no_json any_json event_id
        new_id up orders 50;
}

abbrev security : Security
security = record { cookie_secure = true; new_csrf = ok "csrf" }

-- The cookies are those of a tenant's user.
abbrev request : Request
request = record {
  authorization = "Bearer ann";
  cookie = λ name. if name == "modura_csrf" || name == "modura_refresh" then some "c" else none;
  csrf_header = "c";
  request_id = "q1";
}

abbrev bodies : PlatformBodies
bodies = record { reason = some "unpaid"; tenant = none; dictionary = none; configuration = none }

abbrev refused : {A : Type 0} → Response A × Db
refused = (problem_response 403 "request verification failed", sample)

platform_unverified_refused_example :
    ((platform_refresh admins security request sample ≡ refused)
      × (platform_logout admins security request sample ≡ refused))
    × ((suspend_platform_tenant admins security tenants any_json request "t1" bodies.reason sample
          ≡ refused)
        × (reactivate_platform_tenant admins security tenants any_json request "t1" bodies.reason
              sample
            ≡ refused)
        × (provision_platform_tenant admins security provisioning any_json any_json request "t1"
              bodies.tenant sample
            ≡ refused))
    × ((replace_platform_dictionary admins security settings any_json request "t1" bodies.dictionary
            sample
          ≡ refused)
        × (put_platform_configuration admins security settings any_json request "t1"
              bodies.configuration sample
            ≡ refused))
platform_unverified_refused_example =
    platform_unverified_refused admins security tenants provisioning settings any_json any_json
      any_json request "t1" bodies sample refl
