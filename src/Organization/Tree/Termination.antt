-- ===== src/Organization/Tree/Termination.antt =====
-- The recursive queries end: enough fuel for the depth of the tree gives a result.
use modura.Prelude.{
  ℕ, zero, suc, ◌+◌, ◌≤◌, ◌<◌, String, true, Option, none, some, List, [], ◌∷◌, ◌++◌, ◌≡◌, refl,
  ◌==◌, filter, All, arith, Bool-cases, inl, inr, is_some, and-eq-true,
}
use modura.Database.{DepartmentRow}
use modura.Organization.Tree.{child_of, parent_is, ids, children, levels, prepend}

-- `depth` grows by one at least along each parent link of the tenant, and stays within `h`.
abbrev pub IsLayered : String → (String → ℕ) → ℕ → List DepartmentRow → Type 0
IsLayered t depth h rows =
    All
      (λ d.
        (d.tenant_id == t) ≡ true
        → (depth d.id ≤ h) × ((p : String) → parent_is d.parent_id p ≡ true → depth p < depth d.id))
      rows

prepended :
    (xs : List String) (o : Option (List String)) → is_some o ≡ true → is_some (prepend xs o) ≡ true
prepended xs none e = e
prepended xs (some ys) e = refl

module _ (t : String) (depth : String → ℕ) (h : ℕ) where
  ids-deeper :
      (rows : List DepartmentRow) (p : String) (k : ℕ)
      → IsLayered t depth h rows
      → k ≤ depth p
      → All (λ x. (k < depth x) × (depth x ≤ h)) (ids (filter (child_of t p) rows))
  unfolding filter ids
  ids-deeper [] p k l below = tt
  ids-deeper (d ∷ rows) p k l below = elim (Bool-cases (child_of t p d)) [
    | inl is_child ↦
        let (same_tenant, linked) =
          and-eq-true (d.tenant_id == t) (parent_is d.parent_id p) is_child in
        let (bounded, deeper) = l.0 same_tenant in
        rw is_child ((omega (arith, deeper p linked), bounded), ids-deeper rows p k l.1 below)
    | inr other ↦ rw other (ids-deeper rows p k l.1 below)
  ]

  All-append : (P : String → Type 0) (xs ys : List String) → All P xs → All P ys → All P (xs ++ ys)
  All-append P [] ys a b = b
  All-append P (x ∷ xs) ys a b = (a.0, All-append P xs ys a.1 b)

  children-deeper :
      (rows : List DepartmentRow) (ps : List String) (k : ℕ)
      → IsLayered t depth h rows
      → All (λ x. k ≤ depth x) ps
      → All (λ x. (k < depth x) × (depth x ≤ h)) (children t rows ps)
  unfolding children
  children-deeper rows [] k l below = tt
  children-deeper rows (p ∷ ps) k l below =
      All-append _ _ _ (ids-deeper rows p k l below.0) (children-deeper rows ps k l below.1)

  weaken :
      (k : ℕ) (xs : List String)
      → All (λ x. (k < depth x) × (depth x ≤ h)) xs
      → All (λ x. suc k ≤ depth x) xs
  weaken k [] a = tt
  weaken k (x ∷ xs) a = (a.0.0, weaken k xs a.1)

  levels_end_from :
      (fuel k : ℕ) (rows : List DepartmentRow) (ps : List String)
      → IsLayered t depth h rows
      → All (λ x. (k < depth x) × (depth x ≤ h)) ps
      → h ≤ fuel + k
      → is_some (levels fuel t rows ps) ≡ true
  unfolding levels
  levels_end_from zero k rows [] l a enough = refl
  levels_end_from (suc fuel) k rows [] l a enough = refl
  levels_end_from zero k rows (p ∷ ps) l a enough = absurd (omega (arith, a.0.0, a.0.1))
  levels_end_from (suc fuel) k rows (p ∷ ps) l a enough =
      prepended (p ∷ ps) (levels fuel t rows (children t rows (p ∷ ps))) (
        levels_end_from fuel (suc k) rows (children t rows (p ∷ ps)) l
          (children-deeper rows (p ∷ ps) (suc k) l (weaken k (p ∷ ps) a)) (omega arith))

  at_least_zero : (xs : List String) → All (λ x. 0 ≤ depth x) xs
  at_least_zero [] = tt
  at_least_zero (x ∷ xs) = (omega arith, at_least_zero xs)

  -- A recursive query over departments whose parent links climb at most `h` levels ends within
  -- `h` rounds after the first, from whatever first level.
  pub levels_end :
      (fuel : ℕ) (rows : List DepartmentRow) (ps : List String)
      → IsLayered t depth h rows
      → h < fuel
      → is_some (levels fuel t rows ps) ≡ true
  unfolding levels
  levels_end zero rows ps l enough = absurd (omega arith)
  levels_end (suc fuel) rows [] l enough = refl
  levels_end (suc fuel) rows (p ∷ ps) l enough =
      prepended (p ∷ ps) (levels fuel t rows (children t rows (p ∷ ps))) (
        levels_end_from fuel 0 rows (children t rows (p ∷ ps)) l
          (children-deeper rows (p ∷ ps) 0 l (at_least_zero (p ∷ ps))) (omega arith))
