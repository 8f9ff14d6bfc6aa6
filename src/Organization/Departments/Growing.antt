-- ===== src/Organization/Departments/Growing.antt =====
-- A new department and a deleted one leave the parent links of a tenant a forest.
use modura.Prelude.{
  Bool, String, true, false, none, some, Option, List, [], ◌∷◌, ◌≡◌, refl, sym, false≢true, subst,
  ◌∙◌, ◌==◌, eq_iff, arith, Bool-cases, inl, inr, is_some, delete_where, update_where, ◌&&◌,
  eq_refl,
}
use modura.Database.{DepartmentRow}
use modura.Organization.Tree.{parent_of}
use modura.Organization.Tree.Forest.{IsForest, Rooted, root, child}
use modura.Organization.Departments.{is_removable}

-- The parent of each department is there, and another one.
abbrev pub HasParents : String → List DepartmentRow → Type 0
HasParents t rows =
    (x p : String)
    → parent_of t rows x ≡ some (some p)
    → ((p == x) ≡ false) × (is_some (parent_of t rows p) ≡ true)

module _ (t : String) (row : DepartmentRow) (rows : List DepartmentRow)
    (fresh : parent_of t rows row.id ≡ none) where
  parent_of-cons_ne :
      (x : String)
      → is_some (parent_of t rows x) ≡ true
      → parent_of t (row ∷ rows) x ≡ parent_of t rows x
  unfolding parent_of
  parent_of-cons_ne x h = elim (Bool-cases (row.tenant_id == t && row.id == x)) [
    | inl e ↦ absurd (false≢true (rw (← (eq_iff row.id x).0 (ground arith), fresh) at h))
    | inr e ↦ rw e
  ]

  Rooted-cons : {x : String} → Rooted t rows x → Rooted t (row ∷ rows) x
  Rooted-cons {x} (root h) = root (parent_of-cons_ne x (rw h) ∙ h)
  Rooted-cons {x} (child p h r) = child p (parent_of-cons_ne x (rw h) ∙ h) (Rooted-cons r)

  new-Rooted :
      (o : Option String)
      → parent_of t (row ∷ rows) row.id ≡ some o
      → HasParents t (row ∷ rows)
      → IsForest t rows
      → Rooted t (row ∷ rows) row.id
  unfolding parent_of
  new-Rooted none h linked forest = root h
  new-Rooted (some p) h linked forest =
      let (apart, there) = linked row.id p h in
      child p h (Rooted-cons (forest p (ground (arith, eq_iff row.id p, eq_iff p row.id))))

  pub created-IsForest : HasParents t (row ∷ rows) → IsForest t rows → IsForest t (row ∷ rows)
  unfolding parent_of
  created-IsForest linked forest x h = elim (Bool-cases (row.tenant_id == t && row.id == x)) [
    | inl e ↦
        let same = (eq_iff row.id x).0 (ground arith) in
        subst (Rooted t (row ∷ rows)) same
          (new-Rooted row.parent_id (ground (arith, eq_refl row.id)) linked forest)
    | inr e ↦ Rooted-cons (forest x (rw e at h))
  ]

module _ (t d : String) where
  abbrev deleted : List DepartmentRow → List DepartmentRow
  deleted rows = delete_where (is_removable t d) rows

  parent_of-deleted_ne :
      (rows : List DepartmentRow) (x : String)
      → (d == x) ≡ false
      → parent_of t (deleted rows) x ≡ parent_of t rows x
  unfolding parent_of delete_where
  parent_of-deleted_ne [] x h = refl
  parent_of-deleted_ne (r ∷ rows) x h =
      ground (arith, parent_of-deleted_ne rows x, eq_iff r.id d, eq_iff r.id x, eq_iff d x)

  -- What is left under the identifier is a root.
  parent_of-deleted_self :
      (rows : List DepartmentRow)
      → is_some (parent_of t (deleted rows) d) ≡ true
      → parent_of t (deleted rows) d ≡ some none
  unfolding parent_of delete_where
  parent_of-deleted_self [] h = cc
  parent_of-deleted_self (r ∷ rows) h = ground (arith, parent_of-deleted_self rows)

  module _ (rows : List DepartmentRow) (linked : HasParents t (deleted rows)) where
    deleted_self :
        (x : String)
        → (d == x) ≡ true
        → is_some (parent_of t (deleted rows) x) ≡ true
        → Rooted t (deleted rows) x
    deleted_self x same h =
        let e = (eq_iff d x).0 same in
        subst (Rooted t (deleted rows)) e (
          root (
            parent_of-deleted_self rows
              (subst (λ z. is_some (parent_of t (deleted rows) z) ≡ true) (sym e) h)))

    Rooted-deleted :
        {x : String}
        → Rooted t rows x
        → is_some (parent_of t (deleted rows) x) ≡ true
        → Rooted t (deleted rows) x
    Rooted-deleted {x} (root k) h = elim (Bool-cases (d == x)) [
      | inl same ↦ deleted_self x same h
      | inr other ↦ root (parent_of-deleted_ne rows x other ∙ k)
    ]
    Rooted-deleted {x} (child p k r) h = elim (Bool-cases (d == x)) [
      | inl same ↦ deleted_self x same h
      | inr other ↦
          let e = parent_of-deleted_ne rows x other ∙ k in
          child p e (Rooted-deleted r (linked x p e).1)
    ]

    -- A department whose parent is deleted would have no parent, so its chain still ends at a root.
    pub deleted-IsForest : IsForest t rows → IsForest t (deleted rows)
    deleted-IsForest forest x h = elim (Bool-cases (d == x)) [
      | inl same ↦ deleted_self x same h
      | inr other ↦
          Rooted-deleted
            (forest x (subst (λ o. is_some o ≡ true) (parent_of-deleted_ne rows x other) h)) h
    ]

-- An update that keeps the keys and the parent of a row keeps the parent links.
pub parent_of-update_where :
    (t : String) (q : DepartmentRow → Bool) (f : DepartmentRow → DepartmentRow)
    (rows : List DepartmentRow) (x : String)
    → ((r : DepartmentRow)
        → ((f r).tenant_id ≡ r.tenant_id) × ((f r).id ≡ r.id) × ((f r).parent_id ≡ r.parent_id))
    → parent_of t (update_where q f rows) x ≡ parent_of t rows x
unfolding parent_of update_where
parent_of-update_where t q f [] x same = refl
parent_of-update_where t q f (r ∷ rows) x same =
    ground (arith, same r, parent_of-update_where t q f rows x same)
