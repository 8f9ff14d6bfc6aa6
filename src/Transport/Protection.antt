-- ===== src/Transport/Protection.antt =====
-- The pair of CSRF cookie and header protects what the tenants' handlers change.
use modura.Prelude.{ℕ, String, Bool, false, Option, ◌≡◌}
use modura.Database.{Db}
use modura.Transport.{Request, Security}
use modura.Transport.Checks.{Refuses, verified, csrf-refused}
use modura.Transport.Identity
use modura.Transport.Identity.{IdentityService, ChangePasswordRequest}
use modura.Transport.Authorization
use modura.Transport.Authorization.{
  AuthorizationService, CreateRoleRequest, ReplaceRolePoliciesRequest, ReplaceUserRoleGrantsRequest,
}
use modura.Transport.Settings
use modura.Transport.Settings.{SettingsService, ReplaceDictionaryRequest, PutConfigurationRequest}
use modura.Transport.Organization
use modura.Transport.Organization.{
  Authorizer, OrganizationService, DepartmentRequest, CreateDepartmentRequest,
  UpdatePositionRequest, AssignUserRequest,
}

-- The bodies that come with a request to the one or the other handler.
pub record Bodies : Type 0 where
  pub password : Option ChangePasswordRequest
  pub role : Option CreateRoleRequest
  pub policies : Option ReplaceRolePoliciesRequest
  pub grants : Option ReplaceUserRoleGrantsRequest
  pub new_department : Option CreateDepartmentRequest
  pub department : Option DepartmentRequest
  pub parent : Option String
  pub position : Option String
  pub position_update : Option UpdatePositionRequest
  pub assignment : Option AssignUserRequest
  pub dictionary : Option ReplaceDictionaryRequest
  pub configuration : Option PutConfigurationRequest

module _ (users : IdentityService) (security : Security) (roles : AuthorizationService)
    (authorizer : Authorizer) (organization : OrganizationService) (settings : SettingsService)
    (is_uuid decodes : String → Bool) where
  -- A request without the pair of the CSRF cookie and header, or without the refresh cookie, is
  -- answered with 403 by each handler of identity, authorization, organization and settings
  -- that changes something for a signed-in user, whatever comes with it, and changes nothing.
  pub unverified_refused :
      (r : Request) (id : String) (expected : ℕ) (b : Bodies) (db : Db)
      → verified r ≡ false
      → (((Refuses (Identity.refresh users security r) db)
            × (Refuses (Identity.logout users security r) db)
            × (Refuses (Identity.logout_all users security r) db)
            × (Refuses (Identity.change_password users security r b.password) db))
          × ((Refuses (Authorization.create_role users security roles is_uuid r b.role) db)
              × (Refuses
                  (Authorization.replace_role_policies users security roles is_uuid r id b.policies)
                  db)
              × (Refuses
                  (Authorization.replace_user_role_grants users security roles is_uuid r id
                    b.grants)
                  db))
          × ((Refuses
                (Organization.create_department users security authorizer organization is_uuid r
                  b.new_department)
                db)
              × (Refuses
                  (Organization.update_department users security authorizer organization is_uuid r
                    id b.department)
                  db)
              × (Refuses
                  (Organization.move_department users security authorizer organization is_uuid r id
                    b.parent)
                  db)
              × (Refuses
                  (Organization.delete_department users security authorizer organization is_uuid r
                    id)
                  db)
              × (Refuses
                  (Organization.create_position users security authorizer organization is_uuid r
                    b.position)
                  db)
              × (Refuses
                  (Organization.update_position users security authorizer organization is_uuid r id
                    b.position_update)
                  db)
              × (Refuses
                  (Organization.assign_user users security authorizer organization is_uuid r id
                    b.assignment)
                  db))
          × ((Refuses
                (Settings.replace_dictionary users security authorizer.authorize settings decodes r
                  id b.dictionary)
                db)
              × (Refuses
                  (Settings.delete_dictionary users security authorizer.authorize settings decodes r
                    id expected)
                  db)
              × (Refuses
                  (Settings.put_configuration users security authorizer.authorize settings decodes r
                    id b.configuration)
                  db)))
  unfolding Settings.replace_dictionary Settings.delete_dictionary Settings.put_configuration
      Identity.refresh Identity.logout Identity.logout_all Identity.change_password
      Authorization.create_role Authorization.replace_role_policies
      Authorization.replace_user_role_grants Organization.create_department
      Organization.update_department Organization.move_department Organization.delete_department
      Organization.create_position Organization.update_position Organization.assign_user
  unverified_refused r id expected b db h = (
    (csrf-refused r _ db h, csrf-refused r _ db h, csrf-refused r _ db h, csrf-refused r _ db h),
    (csrf-refused r _ db h, csrf-refused r _ db h, csrf-refused r _ db h),
    (
      csrf-refused r _ db h,
      csrf-refused r _ db h,
      csrf-refused r _ db h,
      csrf-refused r _ db h,
      csrf-refused r _ db h,
      csrf-refused r _ db h,
      csrf-refused r _ db h,
    ),
    (csrf-refused r _ db h, csrf-refused r _ db h, csrf-refused r _ db h),
  )
