-- ===== src/Organization/History/Forests.antt =====
-- The writes of the organization's store and the forest of each tenant's departments.
use modura.Prelude.{
  ℕ, String, true, List, [], ◌∷◌, ◌≡◌, refl, sym, subst, ap, ◌∙◌, ◌==◌, eq_iff, arith, filter,
  Bool-cases, inl, inr, is_some,
}
use modura.Database.{DepartmentRow, Db}
use modura.Database.Constraints.{constraints}
use modura.Database.Constraints.Departments.{parent_of-linked, parent_of-fresh}
use modura.Database.Tx.{Faults}
use modura.Database.Tx.Atomic.{within_transaction-ensures}
use modura.Database.Tx.Rules.{Ensures, weaken}
use modura.Organization.Tree.{is_department, parent_of}
use modura.Organization.Tree.Forest.{IsForest, Rooted, root, child}
use modura.Organization.Departments.{department_row}
use modura.Organization.Departments.Changes.{
  create_department-ensures, update_department-ensures, delete_department-ensures, renamed,
}
use modura.Organization.Departments.Growing.{
  HasParents, created-IsForest, deleted-IsForest, parent_of-update_where,
}
use modura.Organization.Departments.Moves.{move_department-keeps}
use modura.Organization.Members.Changes.{
  create_position-ensures, update_position-ensures, assign_user-ensures,
  provision_initial_organization-ensures,
}
use modura.Organization.History.{
  Write, creates, updates, moves, deletes, adds_position, updates_position, assigns, provisions,
  tenant_of, perform, History, start, next,
}
use modura.Organization.History.Isolation.{perform-Isolated}

module _ (t : String) where
  module _ (rows rows' : List DepartmentRow)
      (same : (x : String) → parent_of t rows' x ≡ parent_of t rows x) where
    Rooted-same : {x : String} → Rooted t rows x → Rooted t rows' x
    Rooted-same {x} (root h) = root (same x ∙ h)
    Rooted-same {x} (child p h r) = child p (same x ∙ h) (Rooted-same r)

    IsForest-same : IsForest t rows → IsForest t rows'
    IsForest-same forest x h = Rooted-same (forest x (subst (λ o. is_some o ≡ true) (same x) h))

  parent_of-filter :
      (rows : List DepartmentRow) (x : String)
      → parent_of t (filter (λ r. r.tenant_id == t) rows) x ≡ parent_of t rows x
  unfolding parent_of filter
  parent_of-filter [] x = refl
  parent_of-filter (r ∷ rows) x = ground (arith, parent_of-filter rows x)

  -- The tenant's rows decide.
  IsForest-of_filter :
      (rows rows' : List DepartmentRow)
      → filter (λ r. r.tenant_id == t) rows' ≡ filter (λ r. r.tenant_id == t) rows
      → IsForest t rows
      → IsForest t rows'
  IsForest-of_filter rows rows' e =
      IsForest-same rows rows'
        λ x. sym (parent_of-filter rows' x) ∙ ap (λ l. parent_of t l x) e ∙ parent_of-filter rows x

  abbrev Forested : Unit {0} → Db → Type 0
  Forested u db' = IsForest t db'.departments

  -- The constraints give what a new or a deleted row must meet.
  with_new_row :
      (db db' : Db) (row : DepartmentRow)
      → db'.departments ≡ row ∷ db.departments
      → constraints db' ≡ true
      → IsForest t db.departments
      → IsForest t db'.departments
  with_new_row db db' row e held forest = subst (IsForest t) (sym e) (
      created-IsForest t row db.departments (parent_of-fresh t db' row db.departments held e)
        (λ x p k. subst (HasParents t) e (λ y q. parent_of-linked t db' y q held) x p k) forest)

  module _ (down : Faults) (fuel : ℕ) (db : Db) (forest : IsForest t db.departments) where
    own_write : (w : Write) → tenant_of w ≡ t → Ensures (perform down fuel w) db Forested
    own_write (creates d scope) own =
        weaken (create_department-ensures down fuel db d scope) λ u db' (e, held).
          with_new_row db db' (department_row d) (ap (λ x. x.departments) e) held forest
    own_write (updates t' d name normalized order scope now) own =
        weaken (update_department-ensures down fuel db t' d name normalized order scope now)
          λ u db' (e, held).
            IsForest-same _ _
              (λ x.
                ap (λ y. parent_of t y.departments x) e
                ∙ parent_of-update_where t (is_department t' d) (renamed name normalized order now)
                    db.departments x (λ r. (refl, refl, refl)))
              forest
    own_write (moves t' d parent scope now) own =
        subst (λ s. Ensures (perform down fuel (moves s d parent scope now)) db Forested) (sym own)
          (move_department-keeps down fuel t d parent now scope db forest)
    own_write (deletes t' d scope) own =
        subst (λ s. Ensures (perform down fuel (deletes s d scope)) db Forested) (sym own)
          (weaken (delete_department-ensures down fuel db t d scope) λ u db' (e, held).
            let rows = ap (λ y. y.departments) e in
            subst (IsForest t) (sym rows) (
              deleted-IsForest t d db.departments
                (subst (HasParents t) rows λ y q. parent_of-linked t db' y q held) forest))
    own_write (adds_position p) own =
        weaken (create_position-ensures down db p)
          λ u db' e. subst (IsForest t) (ap (λ y. y.departments) (sym e)) forest
    own_write (updates_position t' id name normalized status now) own =
        weaken (update_position-ensures down db t' id name normalized status now)
          λ u db' e. subst (IsForest t) (ap (λ y. y.departments) (sym e)) forest
    own_write (assigns t' user d position scope now) own =
        weaken (assign_user-ensures down db fuel t' user d position scope now)
          λ u db' e. subst (IsForest t) (ap (λ y. y.departments) (sym e)) forest
    own_write (provisions r administrator) own =
        weaken (provision_initial_organization-ensures down db r administrator)
          λ u db' (e, held). with_new_row db db' _ (ap (λ x. x.departments) e) held forest

    perform-IsForest : (w : Write) → Ensures (perform down fuel w) db Forested
    perform-IsForest w = elim (Bool-cases (tenant_of w == t)) [
      | inl own ↦ own_write w ((eq_iff (tenant_of w) t).0 own)
      | inr apart ↦
          weaken (perform-Isolated down fuel t db w apart)
            λ u db' (kept, rest). IsForest-of_filter _ _ kept.departments forest
    ]

  -- Whatever writes of the organization's store are committed, for whatever tenants, the departments
  -- of a tenant stay a forest: every department's chain of parents ends at a root.
  pub History-IsForest :
      {db db' : Db} → IsForest t db.departments → History db db' → IsForest t db'.departments
  History-IsForest forest start = forest
  History-IsForest forest (next {db1} down fuel w before done) =
      within_transaction-ensures down _ db1
        (perform-IsForest down fuel db1 (History-IsForest forest before) w) done
