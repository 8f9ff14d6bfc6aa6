-- ===== src/Transport/PlatformProtection.antt =====
-- The pair of CSRF cookie and header protects what the platform administrators' handlers change.
use modura.Prelude.{String, Bool, false, Option, ◌≡◌}
use modura.Database.{Db}
use modura.Database.Tx.{Op}
use modura.Provisioning.{Provisioned}
use modura.Provisioning as Provisioning
use modura.Transport.{Request, Security, Handler, then_passed, cookie_and_csrf}
use modura.Transport.Checks.{Refuses, matching, pair-refused}
use modura.Transport.Platform.{
  PlatformAdminService, PlatformTenantService, platform_refresh_cookie, platform_csrf_cookie,
  platform_refresh, platform_logout, suspend_platform_tenant, reactivate_platform_tenant,
  change_tenant_status,
}
use modura.Transport.PlatformSettings.{
  PlatformSettingsService, ReplacePlatformDictionaryRequest, PutPlatformConfigurationRequest,
  replace_platform_dictionary, put_platform_configuration,
}
use modura.Transport.Provisioning.{ProvisionTenantRequest, provision_platform_tenant}

-- As `verified`, with the cookies of a platform administrator.
abbrev pub platform_verified : Request → Bool
platform_verified r =
    matching (r.cookie platform_refresh_cookie) (r.cookie platform_csrf_cookie) r.csrf_header

-- The bodies that come with a request to the one or the other handler.
pub record PlatformBodies : Type 0 where
  pub reason : Option String
  pub tenant : Option ProvisionTenantRequest
  pub dictionary : Option ReplacePlatformDictionaryRequest
  pub configuration : Option PutPlatformConfigurationRequest

module _ (admins : PlatformAdminService) (security : Security) (tenants : PlatformTenantService)
    (provision : Provisioning.Request → Op Provisioned) (settings : PlatformSettingsService)
    (is_uuid is_email decodes : String → Bool) where
  -- A request without the pair of the platform's CSRF cookie and header, or without the platform's
  -- refresh cookie, is answered with 403 by each handler of the platform that changes something
  -- for a signed-in administrator, whatever comes with it, and changes nothing.
  pub platform_unverified_refused :
      (r : Request) (id : String) (b : PlatformBodies) (db : Db)
      → platform_verified r ≡ false
      → ((Refuses (platform_refresh admins security r) db)
          × (Refuses (platform_logout admins security r) db))
        × ((Refuses (suspend_platform_tenant admins security tenants is_uuid r id b.reason) db)
            × (Refuses
                (reactivate_platform_tenant admins security tenants is_uuid r id b.reason)
                db)
            × (Refuses
                (provision_platform_tenant admins security provision is_uuid is_email r id b.tenant)
                db))
        × ((Refuses
              (replace_platform_dictionary admins security settings decodes r id b.dictionary)
              db)
            × (Refuses
                (put_platform_configuration admins security settings decodes r id b.configuration)
                db))
  unfolding platform_refresh platform_logout suspend_platform_tenant reactivate_platform_tenant
      change_tenant_status provision_platform_tenant replace_platform_dictionary
      put_platform_configuration
  platform_unverified_refused r id b db h =
      ((refused _, refused _), (refused _, refused _, refused _), (refused _, refused _))
    where
      refused :
          {A : Type 0} (f : String → Handler A)
          → Refuses
              (then_passed (cookie_and_csrf r platform_refresh_cookie platform_csrf_cookie) f)
              db
      refused f = pair-refused r platform_refresh_cookie platform_csrf_cookie f db h
