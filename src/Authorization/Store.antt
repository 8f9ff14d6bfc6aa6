-- ===== src/Authorization/Store.antt =====
-- backend/internal/modules/authorization/postgres: roles, policies and grants. `before` is the order
-- in which the server's collation sorts rows (ORDER BY). The branches for a store without a pool are
-- left out.
pub mod Loading
pub mod Reserving
pub mod Reading
pub mod Replacing
use modura.Prelude.{
  ℕ, zero, suc, ◌+◌, String, Bool, true, false, not, ◌&&◌, ◌||◌, Option, none, some, List, [], ◌∷◌,
  ◌++◌, ◌==◌, nat_eq, is_some, any, find, filter, contains, length, insertion_sort, if◌then◌else◌,
  count_where, update_where, delete_where, map, ltb,
}
use modura.Errors.{AuthorizationError, Error, authorization, Result, ok, err}
use modura.Text.{text_le}
use modura.Database.{RoleRow, RolePolicy, UserRole, UserRoleVersion, DataScopeKind, Db}
use modura.Database.Tx.{Faults, Tx, Op, pure, fail, failure, query, exec, exec_at, run, ◌>>=◌, ◌>>◌}
use modura.Identity.Types.{Actor}
use modura.Identity.Rows.{is_user}
use modura.Authorization.Types
use modura.Authorization.StoreRows.{
  is_role, is_policy_of, role_view, policy_of, PolicyRow, rows_of_grant, joined_rows, add_row,
  by_role, policies_of, is_reserved_role, is_open_role, is_open_grant, role_ids, open_grants,
  is_version_of, for_each, tenant_administrator_permissions, insert_policy, is_policy,
  insert_policy_department, insert_role, insert_grant, initialize_version,
}

abbrev not_found : Error
not_found = authorization AuthorizationError.not_found

module _ (down : Faults) where
  pub insert_reserved_policies : String → String → ℕ → List Types.Permission → Tx (Unit {0})
  insert_reserved_policies t role i [] = pure tt
  insert_reserved_policies t role i (p ∷ ps) = do
    exec_at down i "insert reserved role policy" (insert_policy t role p DataScopeKind.all)
    insert_reserved_policies t role (suc i) ps

  unfoldable pub create_reserved_role : Types.Role → Tx (Unit {0})
  unfolding insert_reserved_policies tenant_administrator_permissions
  create_reserved_role role = do
    exec down "insert reserved role" (insert_role role true)
    insert_reserved_policies role.tenant_id role.id 0 tenant_administrator_permissions

  unfoldable pub assign_role : String → String → String → ℕ → Tx (Unit {0})
  assign_role t user role now = do
    exec down "assign role" (insert_grant t user role now)
    exec down "initialize user role version" (initialize_version t user now)
    pure tt

  unfoldable pub load_actor_policies :
      (PolicyRow → PolicyRow → Bool) → Actor → Op (List Types.RolePolicies)
  load_actor_policies before actor = run do
    rows ← query down "query role policies" (λ db.
        joined_rows
          (filter (λ g. g.tenant_id == actor.tenant_id && g.user_id == actor.user_id) db.user_roles)
          db.role_policies)
    pure (ok (by_role (insertion_sort before rows) []))

  unfoldable pub list_roles : (RoleRow → RoleRow → Bool) → String → Op (List Types.RoleView)
  list_roles before t = run do
    rows ← query down "query roles" (λ db. filter (λ r. r.tenant_id == t) db.roles)
    pure (ok (map role_view (insertion_sort before rows)))

  unfoldable pub create_role : Types.Role → Tx (Unit {0})
  create_role role = do exec down "insert role" (insert_role role false); pure tt

  insert_departments : String → String → Types.Permission → ℕ → List String → Tx (Unit {0})
  insert_departments t role p i [] = pure tt
  insert_departments t role p i (d ∷ ds) = do
    exec_at down i "insert custom policy department" (insert_policy_department t role p d)
    insert_departments t role p (suc i) ds

  insert_policies : String → String → ℕ → List Types.Policy → Tx (Unit {0})
  unfolding insert_departments
  insert_policies t role i [] = pure tt
  insert_policies t role i (p ∷ ps) = do
    exec_at down i "insert role policy" (insert_policy t role p.permission p.scope)
    insert_departments t role p.permission 0 p.department_ids
    insert_policies t role (suc i) ps

  replace_locked :
      (RolePolicy → RolePolicy → Bool)
      → String
      → String
      → ℕ
      → List Types.Policy
      → ℕ
      → Option RoleRow
      → Tx (List Types.Policy × ℕ)
  replace_locked before t role expected desired now none = fail not_found
  replace_locked before t role expected desired now (some r) =
      if r.reserved
      then fail (authorization AuthorizationError.reserved)
      else if not (nat_eq r.version expected)
      then fail (authorization AuthorizationError.conflict)
      else (do
        old ← query down "query role policies" (policies_of before t role)
        exec down "delete role policies" (λ db. (
          count_where (is_policy_of t role) db.role_policies,
          record db { role_policies = delete_where (is_policy_of t role) db.role_policies },
        ))
        insert_policies t role 0 desired
        exec down "update role version" (λ db. (
          count_where (is_role t role) db.roles,
          record db {
            roles =
                update_where (is_role t role)
                  (λ x. record x { version = r.version + 1; updated_at = now }) db.roles;
          },
        ))
        pure (old, r.version + 1))

  unfoldable pub replace_role_policies :
      (RolePolicy → RolePolicy → Bool)
      → String
      → String
      → ℕ
      → List Types.Policy
      → ℕ
      → Tx (List Types.Policy × ℕ)
  unfolding replace_locked insert_policies
  replace_role_policies before t role expected desired now = do
    locked ← query down "lock role" (λ db. find (is_role t role) db.roles)
    replace_locked before t role expected desired now locked

  policy_set :
      (RolePolicy → RolePolicy → Bool) → String → Option RoleRow → Tx (Result Types.RolePolicySet)
  policy_set before t none = fail not_found
  policy_set before t (some r) = do
    ps ← query down "query role policy state rows" (policies_of before t r.id)
    pure (ok (record { version = r.version; reserved = r.reserved; policies = ps }))

  unfoldable pub get_role_policy_set :
      (RolePolicy → RolePolicy → Bool) → String → String → Op Types.RolePolicySet
  unfolding policy_set
  get_role_policy_set before t role = run do
    found ← query down "query role policy state" (λ db. find (is_role t role) db.roles)
    policy_set before t found

  version_or_one : Option UserRoleVersion → ℕ
  version_or_one none = 1
  version_or_one (some v) = v.version

  unfoldable pub get_user_role_grants : String → String → Op Types.UserRoleGrantSet
  unfolding version_or_one
  get_user_role_grants t user = run do
    exists ← query down "check role grant user" (λ db. any (is_user t user) db.users)
    if exists
        then (do
          version ←
              query down "query user role version"
                (λ db. find (is_version_of t user) db.user_role_versions)
          granted ← query down "query user roles" (open_grants t user)
          pure (ok (record { version = version_or_one version; role_ids = granted })))
        else fail not_found

  insert_grants : String → String → ℕ → ℕ → List String → Tx (Unit {0})
  insert_grants t user now i [] = pure tt
  insert_grants t user now i (role ∷ roles) = do
    exec_at down i "insert user role grant" (insert_grant t user role now)
    insert_grants t user now (suc i) roles

  -- How many of the tenant's roles that are not reserved are among the desired ones.
  valid_count : String → List String → Db → ℕ
  valid_count t desired db =
      count_where (λ r. r.tenant_id == t && contains r.id desired && not r.reserved) db.roles

  check_desired : String → List String → Tx (Unit {0})
  unfolding valid_count
  check_desired t [] = pure tt
  check_desired t (role ∷ roles) = do
    n ← query down "validate desired roles" (valid_count t (role ∷ roles))
    if nat_eq n (length (role ∷ roles))
        then pure tt
        else fail (authorization AuthorizationError.denied)

  replace_grants :
      String → String → ℕ → List String → ℕ → Option UserRoleVersion → Tx Types.UserRoleGrantSet
  unfolding check_desired insert_grants
  replace_grants t user expected desired now none = fail (failure "lock user role version")
  replace_grants t user expected desired now (some v) =
      if not (nat_eq v.version expected)
      then fail (authorization AuthorizationError.conflict)
      else (do
        old ← query down "query previous user roles" (open_grants t user)
        check_desired t desired
        exec down "delete user role grants" (λ db. (
          count_where (is_open_grant t user db) db.user_roles,
          record db { user_roles = delete_where (is_open_grant t user db) db.user_roles },
        ))
        insert_grants t user now 0 desired
        exec down "update user role version" (λ db. (
          count_where (is_version_of t user) db.user_role_versions,
          record db {
            user_role_versions =
                update_where (is_version_of t user)
                  (λ x. record x { version = x.version + 1; updated_at = now })
                  db.user_role_versions;
          },
        ))
        pure (record { version = v.version; role_ids = old }))

  -- The INSERT … SELECT … WHERE EXISTS (the user), and the check where it inserted nothing.
  initialize_for_user : String → String → ℕ → Db → ℕ × Db
  initialize_for_user t user now db =
      if any (is_user t user) db.users then initialize_version t user now db else (0, db)

  user_checked : String → String → ℕ → Tx (Unit {0})
  user_checked t user (suc n) db = ok (tt, db)
  user_checked t user zero db =
      if down "check role grant user" 0 || not (any (is_user t user) db.users)
      then err not_found
      else ok (tt, db)

  unfoldable pub replace_user_role_grants :
      String → String → ℕ → List String → ℕ → Tx Types.UserRoleGrantSet
  unfolding initialize_for_user user_checked replace_grants
  replace_user_role_grants t user expected desired now = do
    n ← exec down "initialize user role version" (initialize_for_user t user now)
    user_checked t user n
    locked ←
        query down "lock user role version"
          (λ db. find (is_version_of t user) db.user_role_versions)
    replace_grants t user expected desired now locked
