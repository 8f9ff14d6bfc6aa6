-- ===== src/Organization/Departments/Changes.antt =====
-- What the department operations change, when they succeed.
use modura.Prelude.{
  ℕ, zero, suc, ℤ, String, Bool, true, Option, none, some, List, ◌∷◌, ◌≡◌, refl, nat_eq,
  update_where, delete_where,
}
use modura.Database.{DepartmentRow, Db}
use modura.Database.Constraints.{constraints}
use modura.Database.Tx.{Faults, Tx, ◌>>=◌}
use modura.Database.Tx.Rules.{
  Ensures, ensures_pure, ensures_fail, ensures_if, then_exec_held, then_query, then_pure,
}
use modura.Organization.Types.{Department, DataScope}
use modura.Organization.Tree.{is_department}
use modura.Organization.Departments.{
  create_department, update_department, delete_department, parent_visible, one_department,
  visible_department, not_deleted, checked_root, department_row, is_removable,
}
use modura.Organization.Departments.Visibility.{then_visible}

-- Only the departments change, and the constraints hold of them.
abbrev pub Departing : (Db → List DepartmentRow) → Db → Unit {0} → Db → Type 0
Departing change db u db' = (db' ≡ record db { departments = change db }) × (constraints db' ≡ true)

abbrev pub renamed : String → String → ℤ → ℕ → DepartmentRow → DepartmentRow
renamed name normalized order now r = record r {
  name = name;
  normalized_name = normalized;
  sort_order = order;
  updated_at = now;
}

module _ (down : Faults) (fuel : ℕ) (db : Db) where
  then_parent :
      {P : Unit {0} → Db → Type 0} (d : Department) (scope : DataScope) (o : Option String)
      (f : Bool → Tx (Unit {0}))
      → ((b : Bool) → Ensures (f b) db P)
      → Ensures (parent_visible down fuel d scope o >>= f) db P
  unfolding parent_visible visible_department
  then_parent d scope none f k = then_pure true f (k true)
  then_parent d scope (some p) f k = then_visible _ _ _ _ λ b _. k b

  pub create_department-ensures :
      (d : Department) (scope : DataScope)
      → Ensures
          (create_department down fuel d scope)
          db
          (Departing (λ db. department_row d ∷ db.departments) db)
  unfolding create_department
  create_department-ensures d scope = then_parent d scope _ _ λ b.
      ensures_if b (λ _. then_exec_held _ _ _ _ _ _ λ held. ensures_pure _ (refl, held))
        (λ _. ensures_fail _)

  if_one :
      {P : Unit {0} → Db → Type 0} (n : ℕ) (db1 : Db)
      → P tt db1
      → Ensures (one_department down fuel n) db1 P
  unfolding one_department
  if_one n db1 h = ensures_if (nat_eq n 1) (λ _. ensures_pure tt h) (λ _. ensures_fail _)

  pub update_department-ensures :
      (t d name normalized : String) (order : ℤ) (scope : DataScope) (now : ℕ)
      → Ensures (update_department down fuel t d name normalized order scope now) db (
          Departing
            (λ db.
              update_where (is_department t d) (renamed name normalized order now) db.departments)
            db)
  unfolding update_department visible_department
  update_department-ensures t d name normalized order scope now = then_visible _ _ _ _ λ b _.
      ensures_if b (λ _. then_exec_held _ _ _ _ _ _ λ held. if_one _ _ (refl, held))
        (λ _. ensures_fail _)

  -- After the statement, the rest of the deletion only reads.
  read_deleted :
      (t d : String) (n : ℕ) (db1 : Db) {P : Unit {0} → Db → Type 0}
      → P tt db1
      → Ensures (checked_root down fuel n t d >>= not_deleted down fuel n) db1 P
  unfolding checked_root not_deleted
  read_deleted t d (suc n) db1 h = then_pure none _ (ensures_pure tt h)
  read_deleted t d zero db1 {P} h = then_query _ _ _ _ (by_parent _)
    where
      by_parent : (o : Option (Option String)) → Ensures (not_deleted down fuel 0 o) db1 P
      by_parent none = ensures_fail _
      by_parent (some none) = ensures_fail _
      by_parent (some (some p)) = ensures_pure tt h

  pub delete_department-ensures :
      (t d : String) (scope : DataScope)
      → Ensures
          (delete_department down fuel t d scope)
          db
          (Departing (λ db. delete_where (is_removable t d) db.departments) db)
  unfolding delete_department visible_department
  delete_department-ensures t d scope = then_visible _ _ _ _ λ b _.
      ensures_if b (λ _. then_exec_held _ _ _ _ _ _ λ held. read_deleted t d _ _ (refl, held))
        (λ _. ensures_fail _)
