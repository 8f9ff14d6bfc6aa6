-- ===== src/Organization/Tree/Closure.antt =====
-- A recursive query that has ended holds its first level and is Closed under children.
use modura.Prelude.{
  ℕ, zero, suc, String, Bool, true, ◌||◌, some, List, [], ◌∷◌, ◌++◌, ◌≡◌, subst, eq_iff, eq_refl,
  filter, contains, contains-append, arith, inl, inr, or-eq-true, Option-cases,
}
use modura.Database.{DepartmentRow}
use modura.Organization.Tree.{child_of, ids, children, levels, parent_of}

or-eq-true_right : (a : Bool) {b : Bool} → b ≡ true → (a || b) ≡ true
or-eq-true_right a h = ground arith

module _ (t : String) where
  -- A department whose parent is `p` is among the children of `p`.
  child-mem-ids :
      (rows : List DepartmentRow) (x p : String)
      → parent_of t rows x ≡ some (some p)
      → contains x (ids (filter (child_of t p) rows)) ≡ true
  unfolding parent_of filter ids contains
  child-mem-ids [] x p h = cc
  child-mem-ids (d ∷ rows) x p h = ground (arith, eq_refl p, child-mem-ids rows x p)

  child-mem-children :
      (rows : List DepartmentRow) (ps : List String) (x p : String)
      → parent_of t rows x ≡ some (some p)
      → contains p ps ≡ true
      → contains x (children t rows ps) ≡ true
  unfolding children contains
  child-mem-children rows [] x p h m = cc
  child-mem-children rows (q ∷ ps) x p h m = ground (
    arith,
    eq_iff q p,
    contains-append x (ids (filter (child_of t q) rows)) (children t rows ps),
    child-mem-ids rows x p,
    child-mem-children rows ps x p,
  )

  -- A query that has ended is its first level and the query of the next.
  levels-cons :
      (fuel : ℕ) (rows : List DepartmentRow) (p : String) (ps ds : List String)
      → levels (suc fuel) t rows (p ∷ ps) ≡ some ds
      → (es : List String) × (levels fuel t rows (children t rows (p ∷ ps)) ≡ some es)
        × ((p ∷ ps) ++ es ≡ ds)
  unfolding levels
  levels-cons fuel rows p ps ds h =
      elim (Option-cases (levels fuel t rows (children t rows (p ∷ ps)))) [
        | inl e ↦ cc (rw e at h)
        | inr (es, e) ↦ (es, e, cc (rw e at h))
      ]

  pub levels_first :
      (fuel : ℕ) (rows : List DepartmentRow) (ps ds : List String) (x : String)
      → levels fuel t rows ps ≡ some ds
      → contains x ps ≡ true
      → contains x ds ≡ true
  unfolding levels contains
  levels_first fuel rows [] ds x h m = cc
  levels_first zero rows (p ∷ ps) ds x h m = cc
  levels_first (suc fuel) rows (p ∷ ps) ds x h m =
      let (es, e, same) = levels-cons fuel rows p ps ds h in
      subst (λ l. contains x l ≡ true) same (rw (contains-append x (p ∷ ps) es) (ground arith))

  -- The query is Closed: with a department it holds the department's children.
  pub levels_closed :
      (fuel : ℕ) (rows : List DepartmentRow) (ps ds : List String) (x p : String)
      → levels fuel t rows ps ≡ some ds
      → parent_of t rows x ≡ some (some p)
      → contains p ds ≡ true
      → contains x ds ≡ true
  unfolding levels contains
  levels_closed zero rows [] ds x p h k m = ground arith
  levels_closed (suc fuel) rows [] ds x p h k m = ground arith
  levels_closed zero rows (q ∷ ps) ds x p h k m = cc
  levels_closed (suc fuel) rows (q ∷ ps) ds x p h k m =
      let (es, e, same) = levels-cons fuel rows q ps ds h in
      let where_p = rw (← same, contains-append p (q ∷ ps) es) at m in
      subst (λ l. contains x l ≡ true) same
        (rw (contains-append x (q ∷ ps) es)
          (elim (or-eq-true (contains p (q ∷ ps)) (contains p es) where_p) [
            | inl first ↦
                or-eq-true_right (contains x (q ∷ ps))
                  (levels_first fuel rows _ es x e (child-mem-children rows (q ∷ ps) x p k first))
            | inr rest ↦
                or-eq-true_right (contains x (q ∷ ps))
                  (levels_closed fuel rows (children t rows (q ∷ ps)) es x p e k rest)
          ]))
