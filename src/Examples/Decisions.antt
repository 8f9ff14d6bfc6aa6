-- ===== src/Examples/Decisions.antt =====
-- Runs of the authorization service.
use modura.Prelude.{
  ℕ, String, Char, Bool, true, false, List, [], ◌∷◌, ◌≡◌, refl, find, All, filter, contains,
  update_where, delete_where, count_where, unique, insertion_sort,
}
use modura.Text.{trim_space, text_le}
use modura.Errors.{Result, ok}
use modura.Database.{DataScopeKind, Db}
use modura.Database.Constraints.{constraints}
use modura.Database.Tx.{
  run, control, query, exec_or, ◌>>=◌, pure, fail, and_then, on_error, labelled, labelled_call,
  from_result, within_transaction,
}
use modura.Identity.Types.{Actor}
use modura.Audit
use modura.Authorization.Types.{
  Permission, Policy, RolePolicies, ResolvedDataScope, WriteContext, known_permission,
}
use modura.Authorization.Policies.{valid_policies, valid_policy, can_delegate, resolved_scope}
use modura.Authorization.Store
use modura.Authorization.StoreRows
use modura.Authorization.Enforcer.{enforce}
use modura.Authorization.Service.{authorize, resolve_data_scope}
use modura.Authorization.Service.Decisions.{in_actor_tables, authorize_sound}
use modura.Authorization.Management.{Orders, Marshal, valid_write, replace_role_policies}
use modura.Authorization.Management.Delegated.{
  MayDelegate, IsReplaced, replace_role_policies_delegated,
}
use modura.Examples.{up, sample}
use modura.Examples.Casbin.{listed_casbin, listed_casbin-IsDocumented}

abbrev reading : Permission
reading = record { resource = "organization.departments"; action = "read" }

abbrev updating : Permission
updating = record { resource = "organization.departments"; action = "update" }

abbrev pub bob : Actor
bob = record { tenant_id = "t1"; user_id = "u2"; session_id = "s3" }

abbrev pub in_order : {A : Type 0} → A → A → Bool
in_order a b = true

abbrev clerk_policies : List RolePolicies
clerk_policies =
    (record {
      role_id = "clerk";
      policies =
          (record { permission = reading; scope = DataScopeKind.department; department_ids = [] })
          ∷ (record {
            permission = updating;
            scope = DataScopeKind.custom;
            department_ids = "lab" ∷ [];
          })
          ∷ [];
    })
    ∷ []

bob_allowed : enforce listed_casbin bob reading clerk_policies ≡ ok true
unfolding enforce
bob_allowed = refl

bob_authorized : authorize listed_casbin up in_order bob reading sample ≡ (ok tt, sample)
unfolding authorize known_permission contains enforce Store.load_actor_policies
    StoreRows.joined_rows StoreRows.rows_of_grant StoreRows.by_role StoreRows.add_row insertion_sort
    text_le run query ◌>>=◌ pure fail and_then labelled_call filter
bob_authorized = refl

authorize_sound_example :
    (known_permission reading ≡ true)
    × (in_actor_tables listed_casbin listed_casbin-IsDocumented up in_order bob reading sample
        ≡ true)
authorize_sound_example =
    authorize_sound listed_casbin listed_casbin-IsDocumented up in_order bob reading sample
      bob_authorized

abbrev own : ResolvedDataScope
own = record {
  all = false;
  self = false;
  department = true;
  department_and_descendants = false;
  custom_department_ids = [];
}

bob_scope : resolve_data_scope listed_casbin up in_order bob reading sample ≡ (ok own, sample)
unfolding resolve_data_scope resolved_scope known_permission contains enforce
    Store.load_actor_policies StoreRows.joined_rows StoreRows.rows_of_grant StoreRows.by_role
    StoreRows.add_row insertion_sort text_le run query ◌>>=◌ pure fail and_then labelled_call filter
bob_scope = refl

abbrev pub orders : Orders
orders = record { rows = in_order; policies = in_order; roles = in_order }

abbrev pub marshal : Marshal
marshal = record {
  null = ok "null";
  role = λ r. ok "{}";
  policies = λ ps. ok "[]";
  grants = λ g. ok "{}";
}

abbrev pub any_json : String → Bool
any_json s = true

abbrev pub same_rune : Char → Char
same_rune c = c

abbrev pub event_id : ℕ → Result String
event_id at = ok "e1"

abbrev request : WriteContext
request = record { actor = bob; correlation_id = "c1" }

abbrev pub desired : List Policy
desired = (record { permission = reading; scope = DataScopeKind.self; department_ids = [] }) ∷ []

abbrev replaced : Db
replaced =
    (replace_role_policies listed_casbin same_rune marshal any_json event_id up orders true 50
      request "guest" 1 desired sample).1

replacing :
    replace_role_policies listed_casbin same_rune marshal any_json event_id up orders true 50
      request "guest" 1 desired sample
    ≡ (ok 2, replaced)
unfolding replace_role_policies valid_policies valid_policy can_delegate Store.replace_role_policies
    StoreRows.policies_of Audit.record_tenant_write trim_space within_transaction labelled
    from_result on_error find update_where delete_where count_where constraints unique control
    exec_or resolve_data_scope resolved_scope known_permission contains enforce
    Store.load_actor_policies StoreRows.joined_rows StoreRows.rows_of_grant StoreRows.by_role
    StoreRows.add_row insertion_sort text_le run query ◌>>=◌ pure fail and_then labelled_call filter
replacing = refl

replace_role_policies_delegated_example :
    (valid_write request ≡ true)
    × (valid_policies desired ≡ true)
    × All
        (MayDelegate listed_casbin listed_casbin-IsDocumented same_rune marshal any_json event_id up
          orders true 50 bob sample)
        desired
    × IsReplaced listed_casbin listed_casbin-IsDocumented same_rune marshal any_json event_id up
        orders true 50 request "guest" 1 desired sample 2 replaced
replace_role_policies_delegated_example =
    replace_role_policies_delegated listed_casbin listed_casbin-IsDocumented same_rune marshal
      any_json event_id up orders true 50 request "guest" 1 2 desired sample replaced replacing
