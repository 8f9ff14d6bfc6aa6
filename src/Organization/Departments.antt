-- ===== src/Organization/Departments.antt =====
-- Departments in backend/internal/modules/organization/postgres/store.go. `fuel` bounds the rounds
-- of the recursive queries.
pub mod Visibility
pub mod Moves
pub mod Growing
pub mod Changes
use modura.Prelude.{
  ℕ, zero, suc, ℤ, String, Bool, true, false, not, ◌&&◌, ◌||◌, Option, none, some, List, [], ◌∷◌,
  ◌==◌, nat_eq, is_some, find, any, filter, contains, if◌then◌else◌, count_where, update_where,
  delete_where, map,
}
use modura.Errors.{OrganizationError, Error, organization, message, Result, ok, err}
use modura.Database.{DepartmentRow, PositionRow, PositionStatus, UserOrganization, Db}
use modura.Database.Tx.{
  Faults, Tx, Op, pure, fail, failure, control, query, exec, exec_or, run, ◌>>=◌, ◌>>◌,
}
use modura.Organization.Types.{Department, DepartmentView, Position, DataScope}
use modura.Organization.Tree.{
  is_department, department_visible, subtree, parent_of, in_scope, actor_departments,
  actor_descendants,
}

abbrev not_found : Error
not_found = organization OrganizationError.not_found

abbrev pub unended : Error
unended = message "the recursive query has not ended"

-- A recursive query: nothing comes back while it runs.
abbrev pub ended : {A : Type 0} → Option A → Tx A
ended none = fail unended
ended (some a) = pure a

-- The queries of `visibleDepartment` and `visibleUser`: an error counts as not visible.
unfoldable pub visible_query : Faults → String → (Db → Option Bool) → Tx Bool
visible_query down label read db = if down label 0 then ok (false, db) else ended (read db) db

abbrev pub department_row : Department → DepartmentRow
department_row d = record {
  id = d.id;
  tenant_id = d.tenant_id;
  parent_id = d.parent_id;
  name = d.name;
  normalized_name = d.normalized_name;
  sort_order = d.sort_order;
  created_at = d.created_at;
  updated_at = d.created_at;
}

abbrev pub insert_department : DepartmentRow → Db → ℕ × Db
insert_department row db = (1, record db { departments = row ∷ db.departments })

abbrev pub update_departments :
    (DepartmentRow → Bool) → (DepartmentRow → DepartmentRow) → Db → ℕ × Db
update_departments p f db =
    (count_where p db.departments, record db { departments = update_where p f db.departments })

abbrev pub is_removable : String → String → DepartmentRow → Bool
is_removable t x d = is_department t x d && is_some d.parent_id

module _ (down : Faults) (fuel : ℕ) where
  unfoldable pub visible_department : String → String → DataScope → Tx Bool
  visible_department t d scope =
      visible_query down "visible department" (department_visible fuel t d scope)

  -- The statement of `visibleUser` is sent with seven arguments and names all but $5. The server
  -- cannot determine the type of $5 and refuses the statement, and the function returns false.
  unfoldable pub visible_user : String → String → DataScope → Tx Bool
  visible_user t user scope =
      if scope.all || (scope.self && user == scope.actor_id) then pure true else pure false

  parent_visible : Department → DataScope → Option String → Tx Bool
  parent_visible d scope none = pure true
  parent_visible d scope (some p) = visible_department d.tenant_id p scope

  unfoldable pub create_department : Department → DataScope → Tx (Unit {0})
  unfolding parent_visible
  create_department d scope = do
    visible ← parent_visible d scope d.parent_id
    if visible
        then (do exec down "insert department" (insert_department (department_row d)); pure tt)
        else fail not_found

  one_department : ℕ → Tx (Unit {0})
  one_department n = if nat_eq n 1 then pure tt else fail not_found

  unfoldable pub update_department :
      String → String → String → String → ℤ → DataScope → ℕ → Tx (Unit {0})
  unfolding one_department
  update_department t d name normalized sort_order scope now = do
    visible ← visible_department t d scope
    if visible
        then (do
          n ← exec down "update department" (
              update_departments (is_department t d) (λ r. record r {
                name = name;
                normalized_name = normalized;
                sort_order = sort_order;
                updated_at = now;
              }))
          one_department n)
        else fail not_found

  -- The parent of the department that is moved, if it has one, from the row that is locked.
  not_root : Option (Option String) → Tx (Unit {0})
  not_root none = fail not_found
  not_root (some none) = fail (organization OrganizationError.root_department)
  not_root (some (some p)) = pure tt

  set_parent : String → String → String → ℕ → Tx (Unit {0})
  set_parent t d p now = do
    exec down "move department" (
        update_departments (is_department t d)
          (λ r. record r { parent_id = some p; updated_at = now }))
    pure tt

  refuse_cycle : String → String → String → ℕ → Option (List String) → Tx (Unit {0})
  refuse_cycle t d p now below = do
    ds ← ended below
    if contains p ds then fail (organization OrganizationError.cycle) else set_parent t d p now

  move_locked : String → String → String → ℕ → Option (Option String) → Tx (Unit {0})
  move_locked t d p now parent = do
    not_root parent
    exists ← query down "check department parent" (λ db. any (is_department t p) db.departments)
    if exists
        then (do
          below ← query down "check department cycle" (λ db. subtree fuel t d db.departments)
          refuse_cycle t d p now below)
        else fail not_found

  move_checked : String → String → String → ℕ → Tx (Unit {0})
  unfolding not_root refuse_cycle move_locked
  move_checked t d p now = do
    parent ← query down "lock department" (λ db. parent_of t db.departments d)
    move_locked t d p now parent

  unfoldable pub move_department : String → String → String → DataScope → ℕ → Tx (Unit {0})
  unfolding move_checked set_parent
  move_department t d p scope now = do
    visible ← visible_department t d scope
    if visible
        then (do
          parent_visible ← visible_department t p scope
          if parent_visible then move_checked t d p now else fail not_found)
        else fail not_found

  -- No row was deleted: a root, or no department.
  not_deleted : ℕ → Option (Option String) → Tx (Unit {0})
  not_deleted (suc n) parent = pure tt
  not_deleted zero none = fail not_found
  not_deleted zero (some none) = fail (organization OrganizationError.root_department)
  not_deleted zero (some (some p)) = pure tt

  checked_root : ℕ → String → String → Tx (Option (Option String))
  checked_root zero t d = query down "check deleted department" (λ db. parent_of t db.departments d)
  checked_root (suc n) t d = pure none

  -- A row that others refer to violates their foreign keys, which is reported as in use.
  unfoldable pub delete_department : String → String → DataScope → Tx (Unit {0})
  unfolding not_deleted checked_root
  delete_department t d scope = do
    visible ← visible_department t d scope
    if visible
        then (do
          n ← exec_or (organization OrganizationError.in_use) down 0 "delete department" (λ db. (
            count_where (is_removable t d) db.departments,
            record db { departments = delete_where (is_removable t d) db.departments },
          ))
          parent ← checked_root n t d
          not_deleted n parent)
        else fail not_found
