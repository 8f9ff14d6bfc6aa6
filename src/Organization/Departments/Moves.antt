-- ===== src/Organization/Departments/Moves.antt =====
-- `MoveDepartment` keeps the tenant's departments a forest.
use modura.Prelude.{
  ℕ, String, true, false, Option, none, some, List, [], ◌∷◌, ◌≡◌, refl, sym, subst, any, contains,
  arith, is_some,
}
use modura.Errors.{ok}
use modura.Database.{DepartmentRow, Db}
use modura.Database.Tx.{Faults, within_transaction}
use modura.Database.Tx.Atomic.{within_transaction-ensures}
use modura.Database.Tx.Rules.{
  Ensures, ensures_pure, ensures_fail, ensures_if, then_query, then_exec, then_any, then_pure,
  weaken,
}
use modura.Organization.Departments.Visibility.{then_visible}
use modura.Organization.Types.{DataScope}
use modura.Organization.Tree.{is_department, subtree, parent_of}
use modura.Organization.Tree.Forest.{IsForest, moved, moved-IsForest}
use modura.Organization.Departments.{
  move_department, visible_department, move_checked, move_locked, refuse_cycle, set_parent,
  not_root,
}

any-department→parent_of :
    (t p : String) (rows : List DepartmentRow)
    → any (is_department t p) rows ≡ true
    → is_some (parent_of t rows p) ≡ true
unfolding parent_of
any-department→parent_of t p [] h = h
any-department→parent_of t p (r ∷ rows) h = ground (arith, any-department→parent_of t p rows)

module _ (down : Faults) (fuel : ℕ) (t d p : String) (now : ℕ) (db : Db) where
  -- The rows afterwards, and what the checks saw.
  pub record IsMove (db' : Db) : Type 0 where
    pub there : is_some (parent_of t db.departments d) ≡ true
    pub parent_there : is_some (parent_of t db.departments p) ≡ true
    pub below : List String
    pub ended_with : subtree fuel t d db.departments ≡ some below
    pub apart : contains p below ≡ false
    pub rows : db'.departments ≡ moved t d p now db.departments
    pub rest : db' ≡ record db { departments = db'.departments }

  abbrev pub Moving : Unit {0} → Db → Type 0
  Moving u db' = IsMove db'

  set_parent-ensures :
      (below : List String)
      → is_some (parent_of t db.departments d) ≡ true
      → is_some (parent_of t db.departments p) ≡ true
      → subtree fuel t d db.departments ≡ some below
      → contains p below ≡ false
      → Ensures (set_parent down fuel t d p now) db Moving
  unfolding set_parent
  set_parent-ensures below h k e a = then_exec _ _ _ _ _ _ (
      ensures_pure _ (record {
        there = h;
        parent_there = k;
        below = below;
        ended_with = e;
        apart = a;
        rows = refl;
        rest = refl;
      }))

  after_cycle_query :
      (o : Option (List String))
      → is_some (parent_of t db.departments d) ≡ true
      → is_some (parent_of t db.departments p) ≡ true
      → subtree fuel t d db.departments ≡ o
      → Ensures (refuse_cycle down fuel t d p now o) db Moving
  unfolding refuse_cycle
  after_cycle_query none h k e = then_any _ _ (ensures_fail {P = λ a b. ⊥} _) (λ a b w. absurd w)
  after_cycle_query (some ds) h k e =
      then_pure _ _
        (ensures_if (contains p ds) (λ c. ensures_fail _) (λ c. set_parent-ensures ds h k e c))

  after_root_query :
      (o : Option (Option String))
      → parent_of t db.departments d ≡ o
      → Ensures (move_locked down fuel t d p now o) db Moving
  unfolding move_locked not_root
  after_root_query none h = then_any _ _ (ensures_fail {P = λ a b. ⊥} _) (λ a b w. absurd w)
  after_root_query (some none) h = then_any _ _ (ensures_fail {P = λ a b. ⊥} _) (λ a b w. absurd w)
  after_root_query (some (some q)) h = then_pure _ _ (
      then_query _ _ _ _ (
        ensures_if (any (is_department t p) db.departments)
          (λ e.
            then_query _ _ _ _
              (after_cycle_query _ (rw h) (any-department→parent_of t p db.departments e) refl))
          (λ e. ensures_fail _)))

  move_checked-ensures : Ensures (move_checked down fuel t d p now) db Moving
  unfolding move_checked
  move_checked-ensures = then_query _ _ _ _ (after_root_query _ refl)

  -- A move that succeeds has found both departments, the moved one not a root and the new parent
  -- outside its subtree, and changes in the table only the moved department's parent and time.
  pub move_department-ensures :
      (scope : DataScope) → Ensures (move_department down fuel t d p scope now) db Moving
  unfolding move_department visible_department
  move_department-ensures scope = then_visible _ _ _ _ λ b _.
      ensures_if b
        (λ _.
          then_visible _ _ _ _
            λ c _. ensures_if c (λ _. move_checked-ensures) (λ _. ensures_fail _))
        (λ _. ensures_fail _)

module _ (down : Faults) (fuel : ℕ) (t d p : String) (now : ℕ) (scope : DataScope) (db : Db) where
  pub move_department-keeps :
      IsForest t db.departments
      → Ensures (move_department down fuel t d p scope now) db (λ u db'. IsForest t db'.departments)
  move_department-keeps forest =
      weaken (move_department-ensures down fuel t d p now db scope) λ u db' m.
        subst (IsForest t) (sym m.rows) (
          moved-IsForest t d p now db.departments fuel m.below m.there m.ended_with m.apart forest
            m.parent_there)

  -- A move that is committed keeps the tenant's departments a forest: every department's chain of
  -- parents still ends at a root.
  move_department-IsForest :
      {db' : Db}
      → IsForest t db.departments
      → within_transaction down (move_department down fuel t d p scope now) db ≡ (ok tt, db')
      → IsForest t db'.departments
  move_department-IsForest forest done =
      within_transaction-ensures down _ db (move_department-keeps forest) done
