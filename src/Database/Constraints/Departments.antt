-- ===== src/Database/Constraints/Departments.antt =====
-- What the constraints say of departments: identifiers are unique, and a parent is a department.
use modura.Prelude.{
  String, Bool, refl, true, false, not, ◌&&◌, none, some, List, [], ◌∷◌, ◌≡◌, ◌==◌, all, any,
  unique, arith, Bool-cases, inl, inr, eq_iff, is_some,
}
use modura.Database.{DepartmentRow, Db}
use modura.Database.Constraints.{
  constraints, fits_integer, organization_holds, null_or, tenant_exists, department_exists,
}
use modura.Organization.Tree.{is_department, parent_of}

abbrev has_parent : Db → DepartmentRow → Bool
has_parent db d =
    tenant_exists db d.tenant_id
    && null_or (λ p. not (p == d.id) && department_exists db d.tenant_id p) d.parent_id
    && fits_integer d.sort_order

organization-of-constraints : (db : Db) → constraints db ≡ true → organization_holds db ≡ true
unfolding constraints
organization-of-constraints db h = ground arith

departments-of-organization :
    (db : Db)
    → organization_holds db ≡ true
    → (unique (λ a b. a.id == b.id) db.departments ≡ true)
      × (all (has_parent db) db.departments ≡ true)
unfolding organization_holds
departments-of-organization db h = (ground arith, ground arith)

module _ (t : String) where
  parent_of-is_some :
      (p : String) (rows : List DepartmentRow)
      → any (is_department t p) rows ≡ true
      → is_some (parent_of t rows p) ≡ true
  unfolding parent_of
  parent_of-is_some p [] h = h
  parent_of-is_some p (r ∷ rows) h = ground (arith, parent_of-is_some p rows)

  all-linked :
      (db : Db) (rows : List DepartmentRow) (x p : String)
      → all (has_parent db) rows ≡ true
      → parent_of t rows x ≡ some (some p)
      → ((p == x) ≡ false) × (any (is_department t p) db.departments ≡ true)
  unfolding parent_of department_exists
  all-linked db [] x p h k = cc
  all-linked db (r ∷ rows) x p h k = elim (Bool-cases (r.tenant_id == t && r.id == x)) [
    | inl here ↦ ground (arith, eq_iff r.tenant_id t, eq_iff r.id x)
    | inr there ↦ all-linked db rows x p (ground arith) (rw there at k)
  ]

  -- A department's parent is there, and another one.
  pub parent_of-linked :
      (db : Db) (x p : String)
      → constraints db ≡ true
      → parent_of t db.departments x ≡ some (some p)
      → ((p == x) ≡ false) × (is_some (parent_of t db.departments p) ≡ true)
  parent_of-linked db x p h k =
      let (u, linked) = departments-of-organization db (organization-of-constraints db h) in
      let (apart, there) = all-linked db db.departments x p linked k in
      (apart, parent_of-is_some p db.departments there)

  other-fresh :
      (row : DepartmentRow) (rows : List DepartmentRow)
      → any (λ b. row.id == b.id) rows ≡ false
      → parent_of t rows row.id ≡ none
  unfolding parent_of
  other-fresh row [] h = refl
  other-fresh row (r ∷ rows) h =
      ground (arith, eq_iff r.id row.id, eq_iff row.id r.id, other-fresh row rows)

  -- The identifier of a row is that of no other one.
  pub parent_of-fresh :
      (db : Db) (row : DepartmentRow) (rows : List DepartmentRow)
      → constraints db ≡ true
      → db.departments ≡ row ∷ rows
      → parent_of t rows row.id ≡ none
  unfolding unique
  parent_of-fresh db row rows h e =
      let (u, linked) = departments-of-organization db (organization-of-constraints db h) in
      other-fresh row rows (ground (arith, rw e at u))
