-- ===== src/Organization/Tree/Forest.antt =====
-- The parent links of a tenant lead every department to a root, and keep doing so.
use modura.Prelude.{
  ℕ, String, true, false, none, some, List, [], ◌∷◌, ◌⊎◌, ◌≡◌, refl, sym, subst, ◌∙◌, ◌==◌, eq_iff,
  filter, contains, update_where, arith, Bool-cases, inl, inr, is_some, false≢true,
}
use modura.Database.{DepartmentRow}
use modura.Organization.Tree.{is_department, ids, parent_of, subtree}
use modura.Organization.Tree.Closure.{levels_first, levels_closed}

-- The chain of parents from `x` ends at a root.
pub data Rooted (t : String) (rows : List DepartmentRow) : String → Type 0 where
  root : {x : String} → parent_of t rows x ≡ some none → Rooted t rows x
  child :
      {x : String} (p : String)
      → parent_of t rows x ≡ some (some p)
      → Rooted t rows p
      → Rooted t rows x

-- Every department of the tenant is rooted: there is no cycle and no missing parent.
abbrev pub IsForest : String → List DepartmentRow → Type 0
IsForest t rows = (x : String) → is_some (parent_of t rows x) ≡ true → Rooted t rows x

-- The rows after `UPDATE departments SET parent_id = p WHERE tenant_id = t AND id = d`.
abbrev pub with_parent : String → ℕ → DepartmentRow → DepartmentRow
with_parent p now d = record d { parent_id = some p; updated_at = now }

module _ (t d p : String) (now : ℕ) where
  abbrev pub moved : List DepartmentRow → List DepartmentRow
  moved rows = update_where (is_department t d) (with_parent p now) rows

  parent_of-moved_self :
      (rows : List DepartmentRow)
      → is_some (parent_of t rows d) ≡ true
      → parent_of t (moved rows) d ≡ some (some p)
  unfolding parent_of update_where
  parent_of-moved_self [] h = cc
  parent_of-moved_self (r ∷ rows) h = ground (arith, parent_of-moved_self rows)

  parent_of-moved_ne :
      (rows : List DepartmentRow) (x : String)
      → (d == x) ≡ false
      → parent_of t (moved rows) x ≡ parent_of t rows x
  unfolding parent_of update_where
  parent_of-moved_ne [] x h = refl
  parent_of-moved_ne (r ∷ rows) x h =
      ground (arith, parent_of-moved_ne rows x, eq_iff r.id d, eq_iff r.id x, eq_iff d x)

  there-mem-first :
      (rows : List DepartmentRow)
      → is_some (parent_of t rows d) ≡ true
      → contains d (ids (filter (is_department t d) rows)) ≡ true
  unfolding parent_of filter ids contains
  there-mem-first [] h = h
  there-mem-first (r ∷ rows) h = ground (arith, there-mem-first rows)

  module _ (rows : List DepartmentRow) (fuel : ℕ) (ds : List String)
      (there : is_some (parent_of t rows d) ≡ true) (ended : subtree fuel t d rows ≡ some ds)
      (apart : contains p ds ≡ false) where
    d-mem-subtree : contains d ds ≡ true
    unfolding subtree
    d-mem-subtree = levels_first t fuel rows _ ds d ended (there-mem-first rows there)

    -- A department is in the subtree of `d`, or its chain of parents does not pass `d`.
    below_or_Rooted :
        {x : String} → Rooted t rows x → (contains x ds ≡ true) ⊎ Rooted t (moved rows) x
    unfolding subtree
    below_or_Rooted {x} (root h) = elim (Bool-cases (d == x)) [
      | inl same ↦ inl (subst (λ z. contains z ds ≡ true) ((eq_iff d x).0 same) d-mem-subtree)
      | inr other ↦ inr (root (parent_of-moved_ne rows x other ∙ h))
    ]
    below_or_Rooted {x} (child q h r) = elim (Bool-cases (d == x)) [
      | inl same ↦ inl (subst (λ z. contains z ds ≡ true) ((eq_iff d x).0 same) d-mem-subtree)
      | inr other ↦ step other (below_or_Rooted r)
    ]
      where
        step :
            (d == x) ≡ false
            → (contains q ds ≡ true) ⊎ Rooted t (moved rows) q
            → (contains x ds ≡ true) ⊎ Rooted t (moved rows) x
        step other (inl below) = inl (levels_closed t fuel rows _ ds x q ended h below)
        step other (inr rooted) = inr (child q (parent_of-moved_ne rows x other ∙ h) rooted)

    module _ (forest : IsForest t rows) (parent_there : is_some (parent_of t rows p) ≡ true) where
      parent-Rooted : Rooted t (moved rows) p
      parent-Rooted = elim (below_or_Rooted (forest p parent_there)) [
        | inl below ↦ absurd (false≢true (sym apart ∙ below))
        | inr rooted ↦ rooted
      ]

      moved-Rooted : {x : String} → Rooted t rows x → Rooted t (moved rows) x
      moved-Rooted {x} (root h) = elim (Bool-cases (d == x)) [
        | inl same ↦
            subst (Rooted t (moved rows)) ((eq_iff d x).0 same)
              (child p (parent_of-moved_self rows there) parent-Rooted)
        | inr other ↦ root (parent_of-moved_ne rows x other ∙ h)
      ]
      moved-Rooted {x} (child q h r) = elim (Bool-cases (d == x)) [
        | inl same ↦
            subst (Rooted t (moved rows)) ((eq_iff d x).0 same)
              (child p (parent_of-moved_self rows there) parent-Rooted)
        | inr other ↦ child q (parent_of-moved_ne rows x other ∙ h) (moved-Rooted r)
      ]

      -- Where the new parent is not in the subtree that the cycle query returns, the move keeps the
      -- forest.
      pub moved-IsForest : IsForest t (moved rows)
      moved-IsForest x h = elim (Bool-cases (d == x)) [
        | inl same ↦ moved-Rooted (
            forest x (subst (λ z. is_some (parent_of t rows z) ≡ true) ((eq_iff d x).0 same) there))
        | inr other ↦
            moved-Rooted
              (forest x (subst (λ o. is_some o ≡ true) (parent_of-moved_ne rows x other) h))
      ]
