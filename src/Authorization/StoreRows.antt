-- ===== src/Authorization/StoreRows.antt =====
-- The rows, WHERE clauses and inserts of the statements in
-- backend/internal/modules/authorization/postgres. A row of role_policies holds its rows of
-- role_policy_departments, in the order in which they are inserted.
use modura.Prelude.{
  ℕ, String, Bool, not, ◌&&◌, List, [], ◌∷◌, ◌++◌, ◌==◌, any, filter, insertion_sort, if◌then◌else◌,
  update_where, map,
}
use modura.Text.{text_le}
use modura.Database.{RoleRow, RolePolicy, UserRole, UserRoleVersion, DataScopeKind, Db}
use modura.Authorization.Types

abbrev pub is_role : String → String → RoleRow → Bool
is_role t id r = r.tenant_id == t && r.id == id

abbrev pub is_policy_of : String → String → RolePolicy → Bool
is_policy_of t role p = p.tenant_id == t && p.role_id == role

abbrev pub role_view : RoleRow → Types.RoleView
role_view r = record {
  id = r.id;
  code = r.code;
  name = r.name;
  reserved = r.reserved;
  version = r.version;
}

-- A row as `Scan` reads it: the department ids come ordered.
abbrev pub policy_of : RolePolicy → Types.Policy
policy_of p = record {
  permission = record { resource = p.resource; action = p.action };
  scope = p.data_scope;
  department_ids = insertion_sort text_le p.department_ids;
}

abbrev pub PolicyRow : Type 0
PolicyRow = String × Types.Policy

-- The rows of the join for one grant, and for all of the actor's.
unfoldable pub rows_of_grant : String → List RolePolicy → List PolicyRow
rows_of_grant role [] = []
rows_of_grant role (p ∷ ps) = (role, policy_of p) ∷ rows_of_grant role ps

unfoldable pub joined_rows : List UserRole → List RolePolicy → List PolicyRow
unfolding rows_of_grant
joined_rows [] policies = []
joined_rows (g ∷ gs) policies =
    rows_of_grant g.role_id (filter (is_policy_of g.tenant_id g.role_id) policies)
    ++ joined_rows gs policies

-- role.Policies = append(role.Policies, policy), with the entry made where it is missing.
unfoldable pub add_row : PolicyRow → List Types.RolePolicies → List Types.RolePolicies
add_row (role, p) [] = (record { role_id = role; policies = p ∷ [] }) ∷ []
add_row (role, p) (r ∷ rs) =
    let rest = add_row (role, p) rs in
    if r.role_id == role then (record r { policies = r.policies ++ p ∷ [] }) ∷ rs else r ∷ rest

unfoldable pub by_role : List PolicyRow → List Types.RolePolicies → List Types.RolePolicies
unfolding add_row
by_role [] grouped = grouped
by_role (row ∷ rows) grouped = by_role rows (add_row row grouped)

-- The policies of a role as the queries return them.
unfoldable pub policies_of :
    (RolePolicy → RolePolicy → Bool) → String → String → Db → List Types.Policy
policies_of before t role db =
    map policy_of (insertion_sort before (filter (is_policy_of t role) db.role_policies))

unfoldable pub is_reserved_role : String → String → List RoleRow → Bool
is_reserved_role t role rows = any (λ r. is_role t role r && r.reserved) rows

unfoldable pub is_open_role : String → String → List RoleRow → Bool
is_open_role t role rows = any (λ r. is_role t role r && not r.reserved) rows

-- SELECT … FROM user_roles ur JOIN roles r … WHERE … AND r.reserved = false
unfoldable pub is_open_grant : String → String → Db → UserRole → Bool
unfolding is_open_role
is_open_grant t user db g =
    g.tenant_id == t && g.user_id == user && is_open_role t g.role_id db.roles

unfoldable pub role_ids : List UserRole → List String
role_ids [] = []
role_ids (g ∷ gs) = g.role_id ∷ role_ids gs

unfoldable pub open_grants : String → String → Db → List String
unfolding role_ids is_open_grant
open_grants t user db =
    insertion_sort text_le (role_ids (filter (is_open_grant t user db) db.user_roles))

abbrev pub is_version_of : String → String → UserRoleVersion → Bool
is_version_of t user v = v.tenant_id == t && v.user_id == user

-- The permissions of the tenant administrator.
abbrev pub for_each : String → List String → List Types.Permission
for_each resource actions = map (λ a. record { resource = resource; action = a }) actions

unfoldable pub tenant_administrator_permissions : List Types.Permission
tenant_administrator_permissions =
    for_each Types.departments ("read" ∷ "create" ∷ "update" ∷ "delete" ∷ [])
    ++ for_each Types.positions ("read" ∷ "create" ∷ "update" ∷ [])
    ++ for_each Types.user_organization ("read" ∷ "update" ∷ [])
    ++ for_each Types.roles ("read" ∷ "create" ∷ "update" ∷ "delete" ∷ [])
    ++ for_each Types.policies ("read" ∷ "update" ∷ [])
    ++ for_each Types.user_roles ("read" ∷ "update" ∷ [])
    ++ for_each Types.dictionaries ("read" ∷ "create" ∷ "update" ∷ "delete" ∷ [])
    ++ for_each Types.configurations ("read" ∷ "update" ∷ [])
    ++ for_each Types.audit_events ("read" ∷ [])

abbrev pub insert_policy : String → String → Types.Permission → DataScopeKind → Db → ℕ × Db
insert_policy t role p scope db = (
  1,
  record db {
    role_policies =
        db.role_policies
        ++ (record {
          tenant_id = t;
          role_id = role;
          resource = p.resource;
          action = p.action;
          data_scope = scope;
          department_ids = [];
        })
          ∷ [];
  },
)

abbrev pub is_policy : String → String → Types.Permission → RolePolicy → Bool
is_policy t role p r = is_policy_of t role r && r.resource == p.resource && r.action == p.action

abbrev pub insert_policy_department : String → String → Types.Permission → String → Db → ℕ × Db
insert_policy_department t role p department db = (
  1,
  record db {
    role_policies =
        update_where (is_policy t role p)
          (λ r. record r { department_ids = r.department_ids ++ department ∷ [] }) db.role_policies;
  },
)

abbrev pub insert_role : Types.Role → Bool → Db → ℕ × Db
insert_role role reserved db = (
  1,
  record db {
    roles =
        record {
          id = role.id;
          tenant_id = role.tenant_id;
          code = role.code;
          name = role.name;
          reserved = reserved;
          version = 1;
          created_at = role.created_at;
          updated_at = role.created_at;
        }
        ∷ db.roles;
  },
)

abbrev pub insert_grant : String → String → String → ℕ → Db → ℕ × Db
insert_grant t user role now db = (
  1,
  record db {
    user_roles =
        record { tenant_id = t; user_id = user; role_id = role; created_at = now } ∷ db.user_roles;
  },
)

-- INSERT INTO user_role_versions … ON CONFLICT DO NOTHING
abbrev pub initialize_version : String → String → ℕ → Db → ℕ × Db
initialize_version t user now db =
    if any (is_version_of t user) db.user_role_versions then (0, db) else (
      1,
      record db {
        user_role_versions =
            record { tenant_id = t; user_id = user; version = 1; updated_at = now }
            ∷ db.user_role_versions;
      },
    )
