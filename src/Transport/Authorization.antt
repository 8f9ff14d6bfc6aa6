-- ===== src/Transport/Authorization.antt =====
-- backend/internal/modules/authorization/transport/http/handler.go. A path parameter is a text that the
-- router has read as a UUID; `is_uuid` is whether uuid.Parse reads a text. The content of a response is
-- the view that it is made from.
pub mod Guards
use modura.Prelude.{
  ℕ, String, Bool, true, false, Option, none, some, List, [], ◌∷◌, ◌&&◌, all, if◌then◌else◌,
}
use modura.Errors.{Error, AuthorizationError, authorization, cause, Result, ok, err}
use modura.Database.Tx.{Op}
use modura.Identity.Types.{Actor}
use modura.Authorization.Types.{
  Permission, Policy, RoleView, RolePolicySet, UserRoleGrantSet, WriteContext,
}
use modura.Transport.{
  Request, Response, Handler, answer, then_passed, attempt, problem_response, json, Security,
}
use modura.Transport.Permissions.{permission, internal, bad_request, forbidden, with_permission}
use modura.Transport.Identity.{IdentityService, csrf, with_actor}

pub record AuthorizationService : Type 0 where
  pub authorize : Actor → Permission → Op (Unit {0})
  pub effective_permissions : Actor → Op (List Permission)
  pub list_roles : Actor → Op (List RoleView)
  pub create_role : WriteContext → String → String → Op RoleView
  pub get_role_policy_set : Actor → String → Op RolePolicySet
  pub replace_role_policies : WriteContext → String → ℕ → List Policy → Op ℕ
  pub get_user_role_grants : Actor → String → Op UserRoleGrantSet
  pub replace_user_role_grants : WriteContext → String → ℕ → List String → Op UserRoleGrantSet

pub record CreateRoleRequest : Type 0 where
  pub code : String
  pub name : String

pub record ReplaceRolePoliciesRequest : Type 0 where
  pub expected_version : ℕ
  pub policies : List Policy

pub record ReplaceUserRoleGrantsRequest : Type 0 where
  pub expected_version : ℕ
  pub role_ids : List String

abbrev problem_of : {A : Type 0} → Error → Response A
problem_of (authorization AuthorizationError.denied) = forbidden
problem_of (authorization AuthorizationError.reserved) = forbidden
problem_of (authorization AuthorizationError.not_found) = problem_response 404 "not found"
problem_of (authorization AuthorizationError.conflict) = problem_response 409 "version conflict"
problem_of _ = bad_request

-- writeError
abbrev write_error : {A : Type 0} → Error → Response A
write_error e = problem_of (cause e)

-- writeContext
abbrev pub write_context : Request → Actor → WriteContext
write_context r actor = record { actor = actor; correlation_id = r.request_id }

module _ (identity : IdentityService) (security : Security) (service : AuthorizationService)
    (is_uuid : String → Bool) where
  -- authorized, and what the caller does with the actor.
  unfoldable pub authorized : {A : Type 0} → Request → Permission → (Actor → Handler A) → Handler A
  unfolding with_permission
  authorized r p f = with_permission identity security service.authorize r p f

  abbrev if_readable : {A : Type 0} → ℕ → Bool → A → Handler A
  if_readable status readable a = answer (if readable then json status a else internal)

  -- roleResponse, policySetResponse, grantResponse: whether the identifiers can be read.
  abbrev readable_role : RoleView → Bool
  readable_role r = is_uuid r.id

  abbrev readable_policies : RolePolicySet → Bool
  readable_policies s = all (λ p. all is_uuid p.department_ids) s.policies

  abbrev readable_grants : UserRoleGrantSet → Bool
  readable_grants s = all is_uuid s.role_ids

  listed_permissions : Result (List Permission) → Handler (List Permission)
  listed_permissions (ok ps) = answer (json 200 ps)
  listed_permissions (err e) = answer internal

  -- ListEffectivePermissions
  unfoldable pub list_effective_permissions : Request → Handler (List Permission)
  unfolding with_actor listed_permissions
  list_effective_permissions r =
      with_actor identity security r
        λ actor. attempt (service.effective_permissions actor) listed_permissions

  policies_shown : Result RolePolicySet → Handler RolePolicySet
  policies_shown (ok s) = if_readable 200 (readable_policies s) s
  policies_shown (err e) = answer (write_error e)

  -- GetRolePolicySet
  unfoldable pub get_role_policy_set : Request → String → Handler RolePolicySet
  unfolding authorized policies_shown
  get_role_policy_set r role =
      authorized r (permission "authorization.policies" "read")
        λ actor. attempt (service.get_role_policy_set actor role) policies_shown

  roles_listed : Result (List RoleView) → Handler (List RoleView)
  roles_listed (ok rs) = if_readable 200 (all readable_role rs) rs
  roles_listed (err e) = answer internal

  -- ListRoles
  unfoldable pub list_roles : Request → Handler (List RoleView)
  unfolding authorized roles_listed
  list_roles r =
      authorized r (permission "authorization.roles" "read")
        λ actor. attempt (service.list_roles actor) roles_listed

  role_created : Result RoleView → Handler RoleView
  role_created (ok v) = if_readable 201 (readable_role v) v
  role_created (err e) = answer bad_request

  create_bound : Request → Option CreateRoleRequest → Actor → Handler RoleView
  unfolding role_created
  create_bound r none actor = answer bad_request
  create_bound r (some q) actor =
      attempt (service.create_role (write_context r actor) q.code q.name) role_created

  -- CreateRole
  unfoldable pub create_role : Request → Option CreateRoleRequest → Handler RoleView
  unfolding authorized create_bound
  create_role r body =
      then_passed (csrf r)
        λ token. authorized r (permission "authorization.roles" "create") (create_bound r body)

  version_answered : Result ℕ → Handler ℕ
  version_answered (ok version) = answer (json 200 version)
  version_answered (err e) = answer (write_error e)

  pub replace_bound : Request → String → Option ReplaceRolePoliciesRequest → Actor → Handler ℕ
  unfolding version_answered
  replace_bound r role none actor = answer bad_request
  replace_bound r role (some q) actor =
      attempt
        (service.replace_role_policies (write_context r actor) role q.expected_version q.policies)
        version_answered

  -- ReplaceRolePolicies
  unfoldable pub replace_role_policies :
      Request → String → Option ReplaceRolePoliciesRequest → Handler ℕ
  unfolding authorized replace_bound
  replace_role_policies r role body = then_passed (csrf r) λ token.
      authorized r (permission "authorization.policies" "update") (replace_bound r role body)

  grants_shown : Result UserRoleGrantSet → Handler UserRoleGrantSet
  grants_shown (ok s) = if_readable 200 (readable_grants s) s
  grants_shown (err e) = answer (write_error e)

  -- GetUserRoleGrants
  unfoldable pub get_user_role_grants : Request → String → Handler UserRoleGrantSet
  unfolding authorized grants_shown
  get_user_role_grants r user =
      authorized r (permission "authorization.user-roles" "read")
        λ actor. attempt (service.get_user_role_grants actor user) grants_shown

  grant_bound :
      Request → String → Option ReplaceUserRoleGrantsRequest → Actor → Handler UserRoleGrantSet
  unfolding grants_shown
  grant_bound r user none actor = answer bad_request
  grant_bound r user (some q) actor =
      attempt
        (service.replace_user_role_grants (write_context r actor) user q.expected_version
          q.role_ids)
        grants_shown

  -- ReplaceUserRoleGrants
  unfoldable pub replace_user_role_grants :
      Request → String → Option ReplaceUserRoleGrantsRequest → Handler UserRoleGrantSet
  unfolding authorized grant_bound
  replace_user_role_grants r user body = then_passed (csrf r) λ token.
      authorized r (permission "authorization.user-roles" "update") (grant_bound r user body)
