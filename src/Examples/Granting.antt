-- ===== src/Examples/Granting.antt =====
-- A run of the authorization service that grants roles to a user.
use modura.Prelude.{
  String, true, false, List, [], ◌∷◌, ◌≡◌, refl, find, All, filter, contains, update_where,
  delete_where, count_where, unique, insertion_sort,
}
use modura.Text.{trim_space, text_le}
use modura.Errors.{ok}
use modura.Database.{Db}
use modura.Database.Constraints.{constraints}
use modura.Database.Tx.{
  run, control, query, exec_or, ◌>>=◌, pure, fail, and_then, on_error, labelled, labelled_call,
  from_result, within_transaction,
}
use modura.Audit
use modura.Authorization.Types.{UserRoleGrantSet, WriteContext, known_permission}
use modura.Authorization.Policies.{add_keys, can_delegate, resolved_scope}
use modura.Authorization.Store
use modura.Authorization.StoreRows
use modura.Authorization.Enforcer.{enforce}
use modura.Authorization.Service.{resolve_data_scope}
use modura.Authorization.Management.{
  valid_write, has_duplicate_role_ids, check_delegation, replace_user_role_grants,
}
use modura.Authorization.Management.Granting.{
  MayGrant, IsGranting, replace_user_role_grants_delegated,
}
use modura.Examples.{up, sample}
use modura.Examples.Casbin.{listed_casbin, listed_casbin-IsDocumented}
use modura.Examples.Decisions.{bob, orders, marshal, any_json, same_rune, event_id}

abbrev request : WriteContext
request = record { actor = bob; correlation_id = "c1" }

abbrev roles : List String
roles = "guest" ∷ "clerk" ∷ []

abbrev granted : Db
granted =
    (replace_user_role_grants listed_casbin same_rune marshal any_json event_id up orders true 50
      request "u2" 1 roles sample).1

abbrev grants : UserRoleGrantSet
grants = record { version = 2; role_ids = "clerk" ∷ "guest" ∷ [] }

granting_roles :
    replace_user_role_grants listed_casbin same_rune marshal any_json event_id up orders true 50
      request "u2" 1 roles sample
    ≡ (ok grants, granted)
unfolding replace_user_role_grants check_delegation can_delegate Store.replace_user_role_grants
    Store.get_role_policy_set StoreRows.policies_of StoreRows.open_grants StoreRows.is_open_grant
    StoreRows.is_open_role Audit.record_tenant_write trim_space within_transaction labelled
    from_result on_error find update_where delete_where count_where constraints unique control
    exec_or resolve_data_scope resolved_scope known_permission contains enforce
    Store.load_actor_policies StoreRows.joined_rows StoreRows.rows_of_grant StoreRows.by_role
    StoreRows.add_row insertion_sort text_le run query ◌>>=◌ pure fail and_then labelled_call filter
    add_keys
granting_roles = refl

replace_user_role_grants_delegated_example :
    (valid_write request ≡ true)
    × (has_duplicate_role_ids (insertion_sort text_le roles) ≡ false)
    × All
        (MayGrant listed_casbin listed_casbin-IsDocumented same_rune marshal any_json event_id up
          orders true 50 request sample)
        (insertion_sort text_le roles)
    × IsGranting listed_casbin listed_casbin-IsDocumented same_rune marshal any_json event_id up
        orders true 50 request "u2" 1
        (insertion_sort text_le roles)
        sample
        grants
        granted
replace_user_role_grants_delegated_example =
    replace_user_role_grants_delegated listed_casbin listed_casbin-IsDocumented same_rune marshal
      any_json event_id up orders true 50 request "u2" 1 roles sample granting_roles
