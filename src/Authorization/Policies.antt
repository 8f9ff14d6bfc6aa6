-- ===== src/Authorization/Policies.antt =====
-- What a policy grants, in backend/internal/modules/authorization/service.go and management.go:
-- the union of data scopes, the validation of desired policies, and delegation.
pub mod Resolution
pub mod Delegation
pub mod Validity
use modura.Prelude.{
  String, Bool, true, false, not, ◌&&◌, ◌||◌, List, [], ◌∷◌, ◌++◌, ◌==◌, contains, all, any,
  insertion_sort, if◌then◌else◌, blank, length, nat_eq,
}
use modura.Text.{trim_space, text_le}
use modura.Database.{DataScopeKind}
use modura.Authorization.Types.{
  departments, user_organization, Permission, same_permission, Policy, ResolvedDataScope,
  RolePolicies, known_permission,
}

-- custom[id] = struct{}{}: the keys of the map, each once.
unfoldable pub add_key : String → List String → List String
add_key id keys = if contains id keys then keys else id ∷ keys

unfoldable pub add_keys : List String → List String → List String
unfolding add_key
add_keys [] keys = keys
add_keys (id ∷ ids) keys = add_keys ids (add_key id keys)

-- The variables of the loop in `ResolveDataScope`: `resolved`, whose custom ids are the map's keys.
abbrev pub nothing : ResolvedDataScope
nothing = record {
  all = false;
  self = false;
  department = false;
  department_and_descendants = false;
  custom_department_ids = [];
}

abbrev pub grant : DataScopeKind → List String → ResolvedDataScope → ResolvedDataScope
grant DataScopeKind.all ids r = record r { all = true }
grant DataScopeKind.self ids r = record r { self = true }
grant DataScopeKind.department ids r = record r { department = true }
grant DataScopeKind.department_descendants ids r = record r { department_and_descendants = true }
grant DataScopeKind.custom ids r = record r {
  custom_department_ids = add_keys ids r.custom_department_ids;
}
grant (DataScopeKind.other s) ids r = r

unfoldable pub resolve_policies : Permission → List Policy → ResolvedDataScope → ResolvedDataScope
resolve_policies permission [] r = r
resolve_policies permission (p ∷ ps) r =
    resolve_policies permission ps
      (if same_permission p.permission permission then grant p.scope p.department_ids r else r)

unfoldable pub resolve_roles :
    Permission → List RolePolicies → ResolvedDataScope → ResolvedDataScope
unfolding resolve_policies
resolve_roles permission [] r = r
resolve_roles permission (role ∷ roles) r =
    resolve_roles permission roles (resolve_policies permission role.policies r)

-- The part of `ResolveDataScope` after the permission was found granted.
unfoldable pub resolved_scope : Permission → List RolePolicies → ResolvedDataScope
unfolding resolve_roles
resolved_scope permission roles =
    let r = resolve_roles permission roles nothing in
    record r { custom_department_ids = insertion_sort text_le r.custom_department_ids }

-- duplicateStrings: a blank value counts too.
unfoldable pub duplicate_strings_from : List String → List String → Bool
duplicate_strings_from seen [] = false
duplicate_strings_from seen (v ∷ vs) =
    blank (trim_space v) || contains v seen || duplicate_strings_from (v ∷ seen) vs

unfoldable pub duplicate_strings : List String → Bool
unfolding duplicate_strings_from
duplicate_strings = duplicate_strings_from []

abbrev pub is_nil {ℓ} : {A : Type ℓ} → List A → Bool
is_nil [] = true
is_nil (x ∷ xs) = false

abbrev pub is_all : DataScopeKind → Bool
is_all DataScopeKind.all = true
is_all _ = false

-- The tests on a policy's scope and departments.
unfoldable pub valid_scope : DataScopeKind → List String → Bool
valid_scope DataScopeKind.custom ids = not (is_nil ids) && not (duplicate_strings ids)
valid_scope (DataScopeKind.other s) ids = false
valid_scope DataScopeKind.all ids = is_nil ids
valid_scope DataScopeKind.self ids = is_nil ids
valid_scope DataScopeKind.department ids = is_nil ids
valid_scope DataScopeKind.department_descendants ids = is_nil ids

abbrev pub is_scoped_resource : String → Bool
is_scoped_resource r = r == departments || r == user_organization

-- The body of the loop of `validPolicies`.
unfoldable pub valid_policy : List Permission → Policy → Bool
unfolding valid_scope
valid_policy seen p =
    known_permission p.permission
    && not (any (λ q. same_permission q p.permission) seen)
    && (is_scoped_resource p.permission.resource || is_all p.scope)
    && valid_scope p.scope p.department_ids

unfoldable pub valid_policies_from : List Permission → List Policy → Bool
valid_policies_from seen [] = true
valid_policies_from seen (p ∷ ps) =
    valid_policy seen p && valid_policies_from (p.permission ∷ seen) ps

-- validPolicies
unfoldable pub valid_policies : List Policy → Bool
unfolding valid_policies_from
valid_policies = valid_policies_from []

abbrev pub all_contained : List String → List String → Bool
all_contained granted ids = all (λ id. contains id granted) ids

abbrev delegable_scope : ResolvedDataScope → DataScopeKind → List String → Bool
delegable_scope granted DataScopeKind.all ids = false
delegable_scope granted DataScopeKind.self ids =
    granted.self || granted.department || granted.department_and_descendants
delegable_scope granted DataScopeKind.department ids =
    granted.department || granted.department_and_descendants
delegable_scope granted DataScopeKind.department_descendants ids =
    granted.department_and_descendants
delegable_scope granted DataScopeKind.custom ids = all_contained granted.custom_department_ids ids
delegable_scope granted (DataScopeKind.other s) ids = false

-- canDelegate
unfoldable pub can_delegate : ResolvedDataScope → Policy → Bool
can_delegate granted desired =
    if granted.all then true else delegable_scope granted desired.scope desired.department_ids
