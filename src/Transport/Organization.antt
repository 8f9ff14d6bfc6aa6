-- ===== src/Transport/Organization.antt =====
-- backend/internal/modules/organization/transport/http/handler.go. A path parameter is a text that the
-- router has read as a UUID; `is_uuid` is whether uuid.Parse reads a text. The content of a response is
-- the view that it is made from.
use modura.Prelude.{
  ℤ, String, Bool, true, false, ◌&&◌, Option, none, some, List, [], all, if◌then◌else◌,
}
use modura.Errors.{Error, OrganizationError, organization, cause, Result, ok, err}
use modura.Database.{PositionStatus}
use modura.Database.Tx.{Op}
use modura.Identity.Types.{Actor}
use modura.Authorization.Types.{Permission, ResolvedDataScope}
use modura.Organization.Types.{DepartmentView, PositionView, DataScope, WriteContext}
use modura.Transport.{
  Request, Response, Body, Handler, answer, then_passed, attempt, problem_response, json, Security,
}
use modura.Transport.Identity.{IdentityService, csrf}
use modura.Transport.Permissions.{
  permission, internal, bad_request, denied_or_internal, with_permission,
}

pub record Authorizer : Type 0 where
  pub authorize : Actor → Permission → Op (Unit {0})
  pub resolve_data_scope : Actor → Permission → Op ResolvedDataScope

pub record OrganizationService : Type 0 where
  pub list_departments : String → DataScope → Op (List DepartmentView)
  pub list_positions : String → Op (List PositionView)
  pub create_department : WriteContext → Option String → String → ℤ → Op String
  pub update_department : WriteContext → String → String → ℤ → Op (Unit {0})
  pub move_department : WriteContext → String → String → Op (Unit {0})
  pub delete_department : WriteContext → String → Op (Unit {0})
  pub create_position : WriteContext → String → Op String
  pub update_position : WriteContext → String → String → PositionStatus → Op (Unit {0})
  pub assign_user : WriteContext → String → String → Option String → Op (Unit {0})

pub record DepartmentRequest : Type 0 where
  pub name : String
  pub sort_order : ℤ

pub record CreateDepartmentRequest : Type 0 where
  pub parent_id : String
  pub name : String
  pub sort_order : ℤ

pub record UpdatePositionRequest : Type 0 where
  pub name : String
  pub status : PositionStatus

pub record AssignUserRequest : Type 0 where
  pub department_id : String
  pub position_id : Option String

abbrev departments : String
departments = "organization.departments"

abbrev positions : String
positions = "organization.positions"

abbrev scope_of : Actor → ResolvedDataScope → DataScope
scope_of actor s = record {
  actor_id = actor.user_id;
  all = s.all;
  self = s.self;
  department = s.department;
  department_and_descendants = s.department_and_descendants;
  custom_department_ids = s.custom_department_ids;
}

-- writeContext
abbrev write_context : Request → Actor → DataScope → WriteContext
write_context r actor scope = record { actor = actor; correlation_id = r.request_id; scope = scope }

abbrev no_content : Response (Unit {0})
no_content = record { status = 204; body = Body.no_content; cookies = [] }

abbrev is_not_found : Error → Bool
is_not_found (organization OrganizationError.not_found) = true
is_not_found _ = false

abbrev changed_or_not_found : Result (Unit {0}) → Handler (Unit {0})
changed_or_not_found (ok u) = answer no_content
changed_or_not_found (err e) =
    answer (if is_not_found (cause e) then problem_response 404 "not found" else bad_request)

abbrev changed : Result (Unit {0}) → Handler (Unit {0})
changed (ok u) = answer no_content
changed (err e) = answer bad_request

-- A problem that is written after another: the status is that of the first.
abbrev pub and_forbidden : {A : Type 0} → Response A → Response A
and_forbidden x = record x { body = Body.doubled x.body "forbidden" }

module _ (users : IdentityService) (security : Security) (authorizer : Authorizer)
    (service : OrganizationService) (is_uuid : String → Bool) where
  abbrev authorized : {A : Type 0} → Request → Permission → (Actor → Handler A) → Handler A
  authorized r p f = with_permission users security authorizer.authorize r p f

  scoped : {A : Type 0} → (DataScope → Handler A) → Actor → Result ResolvedDataScope → Handler A
  scoped f actor (ok s) = f (scope_of actor s)
  scoped f actor (err e) = answer (denied_or_internal e)

  -- authorizedActor and resolvedScope, and what the caller does with the actor and the scope.
  unfoldable pub with_scope :
      {A : Type 0} → Request → Permission → (Actor → DataScope → Handler A) → Handler A
  unfolding with_permission scoped
  with_scope r p f =
      authorized r p
        λ actor. attempt (authorizer.resolve_data_scope actor p) (scoped (f actor) actor)

  of_all : {A : Type 0} → (DataScope → Handler A) → Actor → Result ResolvedDataScope → Handler A
  of_all f actor (ok s) =
      if s.all then f (scope_of actor s) else answer (problem_response 403 "forbidden")
  of_all f actor (err e) = answer (and_forbidden (denied_or_internal e))

  -- The same for positions, `if !ok || !scope.All`: a scope that is not resolved has been answered, and
  -- is answered again.
  unfoldable pub with_all :
      {A : Type 0} → Request → Permission → (Actor → DataScope → Handler A) → Handler A
  unfolding with_permission of_all
  with_all r p f =
      authorized r p
        λ actor. attempt (authorizer.resolve_data_scope actor p) (of_all (f actor) actor)

  -- What a handler does with a body, once it is read.
  bound : {A B : Type 0} → Option B → (B → Handler A) → Handler A
  bound none f = answer bad_request
  bound (some b) f = f b

  abbrev parent_readable : Option String → Bool
  parent_readable none = true
  parent_readable (some p) = is_uuid p

  departments_listed : Result (List DepartmentView) → Handler (List DepartmentView)
  departments_listed (ok ds) =
      answer (
        if all (λ d. is_uuid d.id && parent_readable d.parent_id) ds then json 200 ds else internal)
  departments_listed (err e) = answer internal

  -- ListDepartments
  unfoldable pub list_departments : Request → Handler (List DepartmentView)
  unfolding with_scope departments_listed
  list_departments r =
      with_scope r (permission departments "read")
        λ actor scope. attempt (service.list_departments actor.tenant_id scope) departments_listed

  created : Result String → Handler String
  created (ok id) = answer (if is_uuid id then json 201 id else internal)
  created (err e) = answer bad_request

  -- CreateDepartment
  unfoldable pub create_department : Request → Option CreateDepartmentRequest → Handler String
  unfolding with_scope bound created
  create_department r body = then_passed (csrf r) λ token.
      with_scope r (permission departments "create") λ actor scope. bound body λ q.
        attempt
          (service.create_department (write_context r actor scope) (some q.parent_id) q.name
            q.sort_order)
          created

  -- UpdateDepartment
  unfoldable pub update_department :
      Request → String → Option DepartmentRequest → Handler (Unit {0})
  unfolding with_scope bound
  update_department r id body = then_passed (csrf r) λ token.
      with_scope r (permission departments "update") λ actor scope. bound body λ q.
        attempt (service.update_department (write_context r actor scope) id q.name q.sort_order)
          changed_or_not_found

  -- MoveDepartment
  unfoldable pub move_department : Request → String → Option String → Handler (Unit {0})
  unfolding with_scope bound
  move_department r id body = then_passed (csrf r) λ token.
      with_scope r (permission departments "update") λ actor scope. bound body λ parent.
        attempt (service.move_department (write_context r actor scope) id parent)
          changed_or_not_found

  -- DeleteDepartment
  unfoldable pub delete_department : Request → String → Handler (Unit {0})
  unfolding with_scope
  delete_department r id = then_passed (csrf r) λ token.
      with_scope r (permission departments "delete") λ actor scope.
        attempt (service.delete_department (write_context r actor scope) id) changed_or_not_found

  positions_listed : Result (List PositionView) → Handler (List PositionView)
  positions_listed (ok ps) = answer (if all (λ p. is_uuid p.id) ps then json 200 ps else internal)
  positions_listed (err e) = answer internal

  -- ListPositions
  unfoldable pub list_positions : Request → Handler (List PositionView)
  unfolding with_all positions_listed
  list_positions r =
      with_all r (permission positions "read")
        λ actor scope. attempt (service.list_positions actor.tenant_id) positions_listed

  -- CreatePosition
  unfoldable pub create_position : Request → Option String → Handler String
  unfolding with_all bound created
  create_position r body = then_passed (csrf r) λ token.
      with_all r (permission positions "create") λ actor scope.
        bound body
          λ name. attempt (service.create_position (write_context r actor scope) name) created

  -- UpdatePosition
  unfoldable pub update_position :
      Request → String → Option UpdatePositionRequest → Handler (Unit {0})
  unfolding with_all bound
  update_position r id body = then_passed (csrf r) λ token.
      with_all r (permission positions "update") λ actor scope. bound body λ q.
        attempt (service.update_position (write_context r actor scope) id q.name q.status)
          changed_or_not_found

  -- AssignUserOrganization
  unfoldable pub assign_user : Request → String → Option AssignUserRequest → Handler (Unit {0})
  unfolding with_scope bound
  assign_user r user body = then_passed (csrf r) λ token.
      with_scope r (permission "organization.user-organization" "update") λ actor scope.
        bound body λ q.
          attempt
            (service.assign_user (write_context r actor scope) user q.department_id q.position_id)
            changed
