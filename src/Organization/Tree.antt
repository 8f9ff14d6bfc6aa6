-- ===== src/Organization/Tree.antt =====
-- The recursive queries of backend/internal/modules/organization/postgres/store.go over the parent
-- links of a tenant's departments. `WITH RECURSIVE … UNION ALL` takes one round for each level and
-- ends when a level is empty; the model counts rounds by fuel, and `none` is a query that has not
-- ended. Tree/Termination gives a fuel that is enough.
pub mod Closure
pub mod Forest
pub mod Termination
use modura.Prelude.{
  ℕ, zero, suc, String, Bool, true, false, ◌&&◌, ◌||◌, Option, none, some, List, [], ◌∷◌, ◌++◌, map,
  ◌==◌, filter, find, any, contains, if◌then◌else◌,
}
use modura.Database.{DepartmentRow, UserOrganization, Db}
use modura.Organization.Types.{DataScope}

-- tenant_id = $1 AND id = $2
abbrev pub is_department : String → String → DepartmentRow → Bool
is_department t x d = d.tenant_id == t && d.id == x

abbrev pub parent_is : Option String → String → Bool
parent_is none p = false
parent_is (some q) p = q == p

abbrev pub child_of : String → String → DepartmentRow → Bool
child_of t p d = d.tenant_id == t && parent_is d.parent_id p

unfoldable pub ids : List DepartmentRow → List String
ids [] = []
ids (d ∷ ds) = d.id ∷ ids ds

-- SELECT d.id FROM departments d JOIN descendants parent ON d.parent_id = parent.id
unfoldable pub children : String → List DepartmentRow → List String → List String
children t rows [] = []
children t rows (p ∷ ps) = ids (filter (child_of t p) rows) ++ children t rows ps

abbrev prepend : List String → Option (List String) → Option (List String)
prepend xs none = none
prepend xs (some ys) = some (xs ++ ys)

-- The rows of `descendants` from a first level.
unfoldable pub levels : ℕ → String → List DepartmentRow → List String → Option (List String)
levels zero t rows [] = some []
levels zero t rows (x ∷ xs) = none
levels (suc fuel) t rows [] = some []
levels (suc fuel) t rows (x ∷ xs) = prepend (x ∷ xs) (levels fuel t rows (children t rows (x ∷ xs)))

primary_ids : List UserOrganization → List String
primary_ids [] = []
primary_ids (o ∷ os) = o.primary_department_id ∷ primary_ids os

-- actor_department
unfoldable pub actor_departments : String → String → Db → List String
unfolding primary_ids
actor_departments t user db =
    primary_ids (filter (λ o. o.tenant_id == t && o.user_id == user) db.user_organization)

-- `descendants` of the visibility queries: nothing unless the scope has descendants.
unfoldable pub actor_descendants : ℕ → String → DataScope → Db → Option (List String)
actor_descendants fuel t scope db =
    levels fuel t db.departments
      (if scope.department_and_descendants then actor_departments t scope.actor_id db else [])

-- The condition on a department in the WHERE clause, the descendants given.
abbrev pub in_scope : DataScope → List String → List String → String → Bool
in_scope scope own below d =
    scope.all
    || ((scope.department || scope.self) && contains d own)
    || (scope.department_and_descendants && contains d below)
    || contains d scope.custom_department_ids

abbrev pub map_some {ℓ κ} : {A : Type ℓ} {B : Type κ} → (A → B) → Option A → Option B
map_some f none = none
map_some f (some a) = some (f a)

-- The query of `visibleDepartment`.
unfoldable pub department_visible : ℕ → String → String → DataScope → Db → Option Bool
department_visible fuel t d scope db =
    map_some
      (λ below.
        any (is_department t d) db.departments
        && in_scope scope (actor_departments t scope.actor_id db) below d)
      (actor_descendants fuel t scope db)

abbrev target_visible : DataScope → List String → List String → String → Bool
target_visible scope own below d =
    (scope.department && contains d own)
    || (scope.department_and_descendants && contains d below)
    || contains d scope.custom_department_ids

-- The query of `MoveDepartment` for a cycle: is `p` among `d` and its descendants?
unfoldable pub subtree : ℕ → String → String → List DepartmentRow → Option (List String)
subtree fuel t d rows = levels fuel t rows (ids (filter (is_department t d) rows))

-- parent_id of the department, if it is there.
unfoldable pub parent_of : String → List DepartmentRow → String → Option (Option String)
parent_of t [] x = none
parent_of t (d ∷ rows) x = if is_department t x d then some d.parent_id else parent_of t rows x
