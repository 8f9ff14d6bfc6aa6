-- ===== src/Examples/Authorization.antt =====
-- Runs of the authorization operations.
use modura.Prelude.{
  String, Bool, true, false, List, [], ◌∷◌, ◌≡◌, ◌==◌, ◌&&◌, refl, find, filter, contains,
  update_where, delete_where, count_where, unique, insertion_sort,
}
use modura.Text.{text_le, trim_space}
use modura.Errors.{ok}
use modura.Database.{Db, DataScopeKind}
use modura.Database.Constraints.{constraints}
use modura.Database.Tx.{run, control, query, exec_or, ◌>>=◌, pure, fail, within_transaction}
use modura.Identity.Types.{Actor}
use modura.Organization.Tree.{in_scope}
use modura.Authorization.Types.{
  Permission, Policy, RolePolicies, ResolvedDataScope, known_permission, UserRoleGrantSet,
}
use modura.Authorization.Policies.{
  can_delegate, valid_policies, valid_policy, duplicate_strings, resolved_scope,
}
use modura.Authorization.Policies.Resolution.{resolved_scope_union}
use modura.Authorization.Policies.Delegation.{scope_of, can_delegate_sound}
use modura.Authorization.Store.{
  load_actor_policies, replace_role_policies, replace_user_role_grants,
}
use modura.Authorization.StoreRows.{
  rows_of_grant, joined_rows, add_row, by_role, policies_of, open_grants, is_open_grant,
  is_open_role,
}
use modura.Authorization.Store.Loading.{some_policy, in_tables, load_actor_policies_exact}
use modura.Authorization.Store.Replacing.{IsReplacement, replace_role_policies_sound}
use modura.Examples.{up, sample}

abbrev reading : Permission
reading = record { resource = "organization.departments"; action = "read" }

abbrev updating : Permission
updating = record { resource = "organization.departments"; action = "update" }

abbrev desired : List Policy
desired =
    (record {
      permission = reading;
      scope = DataScopeKind.department_descendants;
      department_ids = [];
    })
    ∷ (record {
      permission = updating;
      scope = DataScopeKind.custom;
      department_ids = "sales" ∷ "west" ∷ [];
    })
    ∷ []

desired_valid : valid_policies desired ≡ true
unfolding valid_policies valid_policy duplicate_strings known_permission contains trim_space
desired_valid = refl

abbrev bob : Actor
bob = record { tenant_id = "t1"; user_id = "u2"; session_id = "s3" }

abbrev in_order : {A : Type 0} → A → A → Bool
in_order a b = true

abbrev clerk_policies : List RolePolicies
clerk_policies =
    (record {
      role_id = "clerk";
      policies =
          (record { permission = reading; scope = DataScopeKind.department; department_ids = [] })
          ∷ (record {
            permission = updating;
            scope = DataScopeKind.custom;
            department_ids = "lab" ∷ [];
          })
          ∷ [];
    })
    ∷ []

loaded : load_actor_policies up in_order bob sample ≡ (ok clerk_policies, sample)
unfolding load_actor_policies joined_rows rows_of_grant by_role add_row insertion_sort text_le run
    query ◌>>=◌ pure filter
loaded = refl

abbrev is_reading : Policy → Bool
is_reading p = p.permission.action == "read"

load_actor_policies_exact_example :
    some_policy is_reading clerk_policies
    ≡ in_tables is_reading
        (filter (λ g. g.tenant_id == "t1" && g.user_id == "u2") sample.user_roles)
        sample.role_policies
load_actor_policies_exact_example =
    load_actor_policies_exact is_reading up in_order bob sample loaded

resolved_scope_union_example :
    ((resolved_scope reading clerk_policies).all ≡ false)
    × ((resolved_scope reading clerk_policies).self ≡ false)
    × ((resolved_scope reading clerk_policies).department ≡ true)
    × ((resolved_scope reading clerk_policies).department_and_descendants ≡ false)
    × ((id : String)
        → contains id (resolved_scope reading clerk_policies).custom_department_ids ≡ false)
resolved_scope_union_example = resolved_scope_union reading clerk_policies

abbrev below_sales : ResolvedDataScope
below_sales = record {
  all = false;
  self = false;
  department = false;
  department_and_descendants = true;
  custom_department_ids = [];
}

abbrev own_department : Policy
own_department = record {
  permission = reading;
  scope = DataScopeKind.department;
  department_ids = [];
}

can_delegate_sound_example :
    in_scope (scope_of "u2" below_sales) ("sales" ∷ []) ("sales" ∷ "west" ∷ []) "sales" ≡ true
unfolding can_delegate contains
can_delegate_sound_example =
    can_delegate_sound below_sales own_department "u2" ("sales" ∷ []) ("sales" ∷ "west" ∷ [])
      "sales" (λ _. refl) refl refl

abbrev replaced : Db
replaced =
    (within_transaction up (replace_role_policies up in_order "t1" "clerk" 1 desired 50) sample).1

abbrev old_policies : List Policy
old_policies =
    (record { permission = reading; scope = DataScopeKind.department; department_ids = [] })
    ∷ (record { permission = updating; scope = DataScopeKind.custom; department_ids = "lab" ∷ [] })
    ∷ []

replacement :
    within_transaction up (replace_role_policies up in_order "t1" "clerk" 1 desired 50) sample
    ≡ (ok (old_policies, 2), replaced)
unfolding within_transaction replace_role_policies policies_of insertion_sort text_le run control
    query exec_or ◌>>=◌ pure fail find filter update_where delete_where count_where constraints
    unique
replacement = refl

replace_role_policies_sound_example : IsReplacement "t1" "clerk" 1 desired 50 sample 2 replaced
replace_role_policies_sound_example =
    replace_role_policies_sound "t1" "clerk" up in_order 1 desired 50 sample replacement

abbrev regranted : Db
regranted =
    (within_transaction up (replace_user_role_grants up "t1" "u2" 1 ("guest" ∷ []) 50) sample).1

abbrev bob_before : UserRoleGrantSet
bob_before = record { version = 1; role_ids = "clerk" ∷ [] }

regranting :
    within_transaction up (replace_user_role_grants up "t1" "u2" 1 ("guest" ∷ []) 50) sample
    ≡ (ok bob_before, regranted)
unfolding within_transaction replace_user_role_grants open_grants is_open_grant is_open_role
    contains insertion_sort text_le run control query exec_or ◌>>=◌ pure fail find filter
    update_where delete_where count_where constraints unique
regranting = refl
