-- ===== src/Authorization/Management.antt =====
-- backend/internal/modules/authorization/management.go: versioned roles, policies and grants, written
-- with delegation checks and audit events. `marshal_…` is json.Marshal for the states of the events,
-- `managed` says whether EnableManagement has been called, and `orders` hold the collations.
pub mod Delegated
pub mod Granting
use modura.Prelude.{
  ℕ, ◌+◌, String, Char, Bool, true, false, not, ◌&&◌, ◌||◌, ◌==◌, Option, none, some, List, [], ◌∷◌,
  any, insertion_sort, blank, nat_eq, if◌then◌else◌,
}
use modura.Errors.{Error, AuthorizationError, authorization, message, Result, ok, err}
use modura.Text.{trim_space, map_runes, text_le}
use modura.Database.{RoleRow, RolePolicy}
use modura.Database.Tx.{
  Faults, Tx, Op, pure, run, fail, refuse, lift, on_error, labelled, labelled_call, from_result,
  within_transaction, and_then, ◌>>=◌, ◌>>◌,
}
use modura.Identity.Types.{Actor}
use modura.Audit
use modura.Authorization.Types.{
  Permission, Policy, Role, RoleView, RolePolicySet, UserRoleGrantSet, WriteContext,
}
use modura.Authorization.Policies.{valid_policies, can_delegate}
use modura.Authorization.Store
use modura.Authorization.StoreRows
use modura.Authorization.Enforcer.{Casbin}
use modura.Authorization.Service.{denied, valid_actor, resolve_data_scope}

unfoldable pub valid_write : WriteContext → Bool
valid_write w = valid_actor w.actor && not (blank (trim_space w.correlation_id))

-- hasDuplicateRoleIDs, of ids in order
unfoldable pub has_duplicate_role_ids : List String → Bool
has_duplicate_role_ids [] = false
has_duplicate_role_ids (a ∷ []) = false
has_duplicate_role_ids (a ∷ b ∷ ids) = b == a || has_duplicate_role_ids (b ∷ ids)

unfoldable pub event_of :
    WriteContext → ℕ → String → String → String → String → String → Audit.Event
event_of w now action resource id before_json after_json = record {
  actor_id = w.actor.user_id;
  tenant_id = w.actor.tenant_id;
  action = action;
  resource = resource;
  resource_id = id;
  reason = "authorized tenant management request";
  correlation_id = w.correlation_id;
  occurred_at = some now;
  before_state = before_json;
  after_state = after_json;
}

pub record Orders : Type 0 where
  pub rows : StoreRows.PolicyRow → StoreRows.PolicyRow → Bool
  pub policies : RolePolicy → RolePolicy → Bool
  pub roles : RoleRow → RoleRow → Bool

pub record Marshal : Type 0 where
  pub null : Result String
  pub role : RoleView → Result String
  pub policies : List Policy → Result String
  pub grants : UserRoleGrantSet → Result String

module _ {State : Type 0} (casbin : Casbin State) (lower : Char → Char) (marshal : Marshal)
    (valid_json : String → Bool) (new_event_id : ℕ → Result String) (down : Faults)
    (orders : Orders) (managed : Bool) (now : ℕ) where
  -- auditChange
  unfoldable pub audit_change :
      WriteContext → String → String → String → Result String → Result String → Tx (Unit {0})
  unfolding event_of
  audit_change w action resource id before after = do
    before_json ← labelled "encode before audit state" (from_result before)
    after_json ← labelled "encode after audit state" (from_result after)
    Audit.record_tenant_write valid_json new_event_id down
        (event_of w now action resource id before_json after_json)

  unfoldable pub list_roles : Actor → Op (List RoleView)
  list_roles actor =
      if not (valid_actor actor) || not managed
      then refuse denied
      else Store.list_roles down orders.roles actor.tenant_id

  unfoldable pub get_role_policy_set : Actor → String → Op RolePolicySet
  get_role_policy_set actor role =
      if not (valid_actor actor) || not managed || blank role
      then refuse denied
      else Store.get_role_policy_set down orders.policies actor.tenant_id role

  unfoldable pub get_user_role_grants : Actor → String → Op UserRoleGrantSet
  get_user_role_grants actor user =
      if not (valid_actor actor) || not managed || blank user
      then refuse denied
      else Store.get_user_role_grants down actor.tenant_id user

  create_role_as : WriteContext → String → String → String → Op RoleView
  unfolding audit_change
  create_role_as w code name id = labelled_call "create role" (
      within_transaction down do
        Store.create_role down (record {
          id = id;
          tenant_id = w.actor.tenant_id;
          code = code;
          name = name;
          reserved = false;
          created_at = now;
          version = 1;
        })
        audit_change w "authorization.role.created" "role" id marshal.null (
            marshal.role
              (record { id = id; code = code; name = name; reserved = false; version = 1 }))
        pure (record { id = id; code = code; name = name; reserved = false; version = 1 }))

  unfoldable pub create_role : (ℕ → Result String) → WriteContext → String → String → Op RoleView
  unfolding create_role_as valid_write
  create_role new_id w code name =
      if not (valid_write w) || not managed
      then refuse denied
      else if blank (map_runes lower (trim_space code))
          || blank (trim_space name)
          || map_runes lower (trim_space code) == "tenant-admin"
      then refuse (message "invalid role")
      else and_then (labelled_call "generate role ID" (lift (new_id now)))
          (create_role_as w (map_runes lower (trim_space code)) (trim_space name))

  -- The loop that checks the delegation of policies: any error counts as denied.
  unfoldable pub check_delegation : Actor → List Policy → Op (Unit {0})
  check_delegation actor [] = lift (ok tt)
  check_delegation actor (p ∷ ps) =
      and_then
        (on_error (λ e. denied) (resolve_data_scope casbin down orders.rows actor p.permission))
        λ scope. if can_delegate scope p then check_delegation actor ps else refuse denied

  unfoldable pub replacement : WriteContext → String → ℕ → List Policy → Tx ℕ
  unfolding audit_change
  replacement w role expected desired = do
    done ←
        Store.replace_role_policies down orders.policies w.actor.tenant_id role expected desired now
    audit_change w "authorization.role-policies.replaced" "role" role (marshal.policies done.0)
        (marshal.policies desired)
    pure done.1

  unfoldable pub replace_role_policies : WriteContext → String → ℕ → List Policy → Op ℕ
  unfolding valid_write check_delegation replacement
  replace_role_policies w role expected desired =
      if not (valid_write w)
        || not managed
        || blank role
        || nat_eq expected 0
        || not (valid_policies desired)
      then refuse (message "invalid role policies")
      else and_then (check_delegation w.actor desired) λ _.
        labelled_call "replace role policies"
          (within_transaction down (replacement w role expected desired))

  check_role : WriteContext → RolePolicySet → Op (Unit {0})
  unfolding check_delegation
  check_role w set =
      if set.reserved
      then refuse (authorization AuthorizationError.reserved)
      else check_delegation w.actor set.policies

  check_roles : WriteContext → List String → Op (Unit {0})
  unfolding check_role
  check_roles w [] = lift (ok tt)
  check_roles w (role ∷ roles) =
      and_then (Store.get_role_policy_set down orders.policies w.actor.tenant_id role)
        λ set. and_then (check_role w set) λ _. check_roles w roles

  granting : WriteContext → String → ℕ → List String → Tx UserRoleGrantSet
  unfolding audit_change
  granting w user expected desired = do
    old ← Store.replace_user_role_grants down w.actor.tenant_id user expected desired now
    audit_change w "authorization.user-roles.replaced" "user" user (marshal.grants old)
        (marshal.grants (record { version = old.version + 1; role_ids = desired }))
    pure (record { version = old.version + 1; role_ids = desired })

  replace_sorted_grants : WriteContext → String → ℕ → List String → Op UserRoleGrantSet
  unfolding check_roles granting
  replace_sorted_grants w user expected desired =
      if any blank desired || has_duplicate_role_ids desired
      then refuse (message "invalid user role grants")
      else and_then (check_roles w desired) λ _.
        labelled_call "replace user role grants"
          (within_transaction down (granting w user expected desired))

  unfoldable pub replace_user_role_grants :
      WriteContext → String → ℕ → List String → Op UserRoleGrantSet
  unfolding valid_write replace_sorted_grants has_duplicate_role_ids
  replace_user_role_grants w user expected desired =
      if not (valid_write w) || not managed || blank user || nat_eq expected 0
      then refuse (message "invalid user role grants")
      else replace_sorted_grants w user expected (insertion_sort text_le desired)
