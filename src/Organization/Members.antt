-- ===== src/Organization/Members.antt =====
-- Positions, user assignments and the listings in
-- backend/internal/modules/organization/postgres/store.go. `before` is the order in which the
-- server's collation sorts rows (ORDER BY).
pub mod Changes
use modura.Prelude.{
  ℕ, String, Bool, ◌&&◌, Option, none, List, ◌∷◌, ◌==◌, nat_eq, any, filter, insertion_sort,
  if◌then◌else◌, count_where, update_where, map,
}
use modura.Errors.{OrganizationError, organization, ok}
use modura.Database.{DepartmentRow, PositionRow, PositionStatus, UserOrganization, Db}
use modura.Database.Tx.{Faults, Tx, Op, pure, fail, query, exec, run, ◌>>=◌, ◌>>◌}
use modura.Organization.Types.{Department, DepartmentView, Position, PositionView, DataScope}
use modura.Organization.Tree.{in_scope, actor_departments, actor_descendants, map_some}
use modura.Organization.Departments.{
  ended, visible_department, visible_user, department_row, insert_department,
}

abbrev department_view : DepartmentRow → DepartmentView
department_view d = record {
  id = d.id;
  parent_id = d.parent_id;
  name = d.name;
  sort_order = d.sort_order;
}

abbrev position_view : PositionRow → PositionView
position_view p = record { id = p.id; name = p.name; status = p.status }

-- The rows that `ListDepartments` selects.
unfoldable pub listed : ℕ → String → DataScope → Db → Option (List DepartmentRow)
listed fuel t scope db =
    map_some
      (λ below.
        filter
          (λ d.
            d.tenant_id == t && in_scope scope (actor_departments t scope.actor_id db) below d.id)
          db.departments)
      (actor_descendants fuel t scope db)

-- ON CONFLICT (tenant_id, user_id) DO UPDATE
unfoldable pub upserted : UserOrganization → List UserOrganization → List UserOrganization
upserted row rows =
    if any (λ o. o.tenant_id == row.tenant_id && o.user_id == row.user_id) rows
    then update_where (λ o. o.tenant_id == row.tenant_id && o.user_id == row.user_id)
        (λ o. record o {
          primary_department_id = row.primary_department_id;
          position_id = row.position_id;
          updated_at = row.updated_at;
        })
        rows
    else row ∷ rows

module _ (down : Faults) (fuel : ℕ) where
  unfoldable pub list_departments :
      (DepartmentRow → DepartmentRow → Bool) → String → DataScope → Op (List DepartmentView)
  list_departments before t scope = run do
    rows ← query down "query departments" (listed fuel t scope)
    ds ← ended rows
    pure (ok (map department_view (insertion_sort before ds)))

  unfoldable pub assign_user :
      String → String → String → Option String → DataScope → ℕ → Tx (Unit {0})
  unfolding upserted
  assign_user t user d position scope now = do
    user_seen ← visible_user down fuel t user scope
    if user_seen
        then (do
          seen ← visible_department down fuel t d scope
          if seen
              then (do
                exec down "assign user organization" (λ db. (
                  1,
                  record db {
                    user_organization =
                        upserted
                          (record {
                            tenant_id = t;
                            user_id = user;
                            primary_department_id = d;
                            position_id = position;
                            created_at = now;
                            updated_at = now;
                          })
                          db.user_organization;
                  },
                ))
                pure tt)
              else fail (organization OrganizationError.not_found))
        else fail (organization OrganizationError.not_found)

module _ (down : Faults) where
  unfoldable pub list_positions :
      (PositionRow → PositionRow → Bool) → String → Op (List PositionView)
  list_positions before t = run do
    rows ← query down "query positions" (λ db. filter (λ p. p.tenant_id == t) db.positions)
    pure (ok (map position_view (insertion_sort before rows)))

  unfoldable pub create_position : Position → Tx (Unit {0})
  create_position p = do
    exec down "insert position" (λ db. (
      1,
      record db {
        positions =
            record {
              id = p.id;
              tenant_id = p.tenant_id;
              name = p.name;
              normalized_name = p.normalized_name;
              status = PositionStatus.active;
              created_at = p.created_at;
              updated_at = p.created_at;
            }
            ∷ db.positions;
      },
    ))
    pure tt

  one_position : ℕ → Tx (Unit {0})
  one_position n = if nat_eq n 1 then pure tt else fail (organization OrganizationError.not_found)

  unfoldable pub update_position :
      String → String → String → String → PositionStatus → ℕ → Tx (Unit {0})
  unfolding one_position
  update_position t id name normalized status now = do
    n ← exec down "update position" (λ db. (
      count_where (λ p. p.tenant_id == t && p.id == id) db.positions,
      record db {
        positions =
            update_where (λ p. p.tenant_id == t && p.id == id)
              (λ p. record p {
                name = name;
                normalized_name = normalized;
                status = status;
                updated_at = now;
              })
              db.positions;
      },
    ))
    one_position n

  unfoldable pub provision_initial_organization : Department → String → Tx (Unit {0})
  provision_initial_organization root administrator = do
    exec down "insert root department"
        (insert_department (record (department_row root) { parent_id = none }))
    exec down "assign initial administrator organization" (λ db. (
      1,
      record db {
        user_organization =
            record {
              tenant_id = root.tenant_id;
              user_id = administrator;
              primary_department_id = root.id;
              position_id = none;
              created_at = root.created_at;
              updated_at = root.created_at;
            }
            ∷ db.user_organization;
      },
    ))
    pure tt
