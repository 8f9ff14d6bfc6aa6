-- ===== src/Authorization/Service.antt =====
-- backend/internal/modules/authorization/service.go: decisions for an actor. `before` is the order of
-- the rows that the store loads.
pub mod Decisions
use modura.Prelude.{
  ℕ, String, Bool, true, false, not, ◌&&◌, ◌||◌, ◌==◌, List, [], ◌∷◌, any, insertion_sort, blank,
  if◌then◌else◌,
}
use modura.Errors.{Error, AuthorizationError, authorization, message, Result, ok, err}
use modura.Text.{text_le}
use modura.Database.Tx.{Faults, Tx, Op, fail, refuse, lift, labelled_call, and_then, ◌>>=◌, ◌>>◌}
use modura.Identity.Types.{Actor}
use modura.Authorization.Types.{
  Permission, same_permission, known_permission, Policy, RolePolicies, ResolvedDataScope, Role,
}
use modura.Authorization.Policies.{resolved_scope}
use modura.Authorization.Store.{load_actor_policies, create_reserved_role, assign_role}
use modura.Authorization.StoreRows.{PolicyRow}
use modura.Authorization.Enforcer.{Casbin, enforce}

abbrev pub denied : Error
denied = authorization AuthorizationError.denied

-- validActor
abbrev pub valid_actor : Actor → Bool
valid_actor a = not (blank a.tenant_id) && not (blank a.user_id) && not (blank a.session_id)

-- seen[policy.Permission] = struct{}{}: the known permissions, each once.
unfoldable pub add_permission : Permission → List Permission → List Permission
add_permission p seen =
    if known_permission p && not (any (λ q. same_permission q p) seen) then p ∷ seen else seen

unfoldable pub add_permissions : List Policy → List Permission → List Permission
unfolding add_permission
add_permissions [] seen = seen
add_permissions (p ∷ ps) seen = add_permissions ps (add_permission p.permission seen)

unfoldable pub all_permissions : List RolePolicies → List Permission → List Permission
unfolding add_permissions
all_permissions [] seen = seen
all_permissions (role ∷ roles) seen = all_permissions roles (add_permissions role.policies seen)

abbrev pub permission_le : Permission → Permission → Bool
permission_le a b =
    if a.resource == b.resource then text_le a.action b.action else text_le a.resource b.resource

module _ {State : Type 0} (casbin : Casbin State) (down : Faults)
    (before : PolicyRow → PolicyRow → Bool) where
  actor_policies : Actor → Permission → Op (List RolePolicies)
  actor_policies actor permission =
      if not (valid_actor actor) || not (known_permission permission)
      then refuse denied
      else labelled_call "load authorization policies" (load_actor_policies down before actor)

  -- The roles of an actor that `enforce` allows the permission.
  allowed_roles : Actor → Permission → List RolePolicies → Op (List RolePolicies)
  allowed_roles actor permission roles =
      and_then
        (labelled_call "evaluate authorization policy"
          (lift (enforce casbin actor permission roles)))
        λ allowed. if allowed then lift (ok roles) else refuse denied

  unfoldable pub authorize : Actor → Permission → Op (Unit {0})
  unfolding actor_policies allowed_roles
  authorize actor permission =
      and_then (actor_policies actor permission)
        λ roles. and_then (allowed_roles actor permission roles) λ _. lift (ok tt)

  unfoldable pub resolve_data_scope : Actor → Permission → Op ResolvedDataScope
  unfolding actor_policies allowed_roles
  resolve_data_scope actor permission = and_then (actor_policies actor permission) λ roles.
      and_then (allowed_roles actor permission roles)
        λ _. lift (ok (resolved_scope permission roles))

  unfoldable pub effective_permissions : Actor → Op (List Permission)
  unfolding all_permissions
  effective_permissions actor =
      if not (valid_actor actor)
      then refuse denied
      else and_then
          (labelled_call "load effective permissions" (load_actor_policies down before actor))
          λ roles. lift (ok (insertion_sort permission_le (all_permissions roles [])))

module _ (down : Faults) where
  unfoldable pub provision_tenant_administrator : Role → String → Tx (Unit {0})
  provision_tenant_administrator role user =
      if blank role.tenant_id
        || blank role.id
        || not (role.code == "tenant-admin")
        || blank user
        || not role.reserved
      then fail (message "invalid tenant administrator role")
      else (do
        create_reserved_role down role
        assign_role down role.tenant_id user role.id role.created_at)
