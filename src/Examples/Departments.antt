-- ===== src/Examples/Departments.antt =====
-- Runs of the department operations.
use modura.Prelude.{
  ℕ, ◌<◌, String, true, false, some, List, [], ◌∷◌, ◌≡◌, refl, find, filter, contains, update_where,
  count_where, unique, is_some, arith, ◌==◌, if◌then◌else◌, Bool-cases, inl, inr, subst, eq_iff,
  false≢true,
}
use modura.Errors.{OrganizationError, organization, ok, err}
use modura.Database.{Db}
use modura.Database.Constraints.{constraints}
use modura.Database.Tx.{run, control, query, exec_or, ◌>>=◌, pure, fail, within_transaction}
use modura.Organization.Types.{DataScope}
use modura.Organization.Tree.{
  levels, children, ids, parent_of, subtree, department_visible, actor_descendants,
  actor_departments,
}
use modura.Organization.Tree.Forest.{IsForest, Rooted, root, child}
use modura.Organization.Tree.Termination.{IsLayered, levels_end}
use modura.Organization.Departments.{move_department, visible_department, visible_query}
use modura.Examples.{up, sample, sample_departments}

abbrev pub whole : DataScope
whole = record {
  actor_id = "u1";
  all = true;
  self = false;
  department = false;
  department_and_descendants = false;
  custom_department_ids = [];
}

abbrev depth : String → ℕ
depth x = if x == "root" then 0 else if x == "west" then 2 else 1

below : (q : String) (n : ℕ) → depth q < n → (p : String) → (q == p) ≡ true → depth p < n
below q n h p e = subst (λ z. depth z < n) ((eq_iff q p).0 e) h

sample-IsLayered : IsLayered "t1" depth 2 sample_departments
sample-IsLayered = (
  λ _. (omega arith, below "sales" 2 (omega arith)),
  (
    λ _. (omega arith, below "root" 1 (omega arith)),
    (
      λ _. (omega arith, below "root" 1 (omega arith)),
      (λ _. (omega arith, λ p e. absurd (false≢true e)), tt),
    ),
  ),
)

levels_end_example : is_some (levels 3 "t1" sample_departments ("root" ∷ [])) ≡ true
levels_end_example =
    levels_end "t1" depth 2 3 sample_departments ("root" ∷ []) sample-IsLayered (omega arith)

abbrev everything : List String
everything = "root" ∷ "sales" ∷ "lab" ∷ "west" ∷ []

levels_from_root : levels 3 "t1" sample_departments ("root" ∷ []) ≡ some everything
unfolding levels children ids filter
levels_from_root = refl

west_parent : parent_of "t1" sample_departments "west" ≡ some (some "sales")
unfolding parent_of
west_parent = refl

Rooted-root : Rooted "t1" sample_departments "root"
unfolding parent_of
Rooted-root = root refl

Rooted-sales : Rooted "t1" sample_departments "sales"
unfolding parent_of
Rooted-sales = child "root" refl Rooted-root

pub sample-IsForest : IsForest "t1" sample_departments
unfolding parent_of
sample-IsForest x h = elim (Bool-cases ("west" == x)) [
  | inl e ↦
      subst (Rooted "t1" sample_departments) ((eq_iff "west" x).0 e)
        (child "sales" refl Rooted-sales)
  | inr not_west ↦ elim (Bool-cases ("sales" == x)) [
    | inl e ↦ subst (Rooted "t1" sample_departments) ((eq_iff "sales" x).0 e) Rooted-sales
    | inr not_sales ↦ elim (Bool-cases ("lab" == x)) [
      | inl e ↦
          subst (Rooted "t1" sample_departments) ((eq_iff "lab" x).0 e)
            (child "root" refl Rooted-root)
      | inr not_lab ↦ elim (Bool-cases ("root" == x)) [
        | inl e ↦ subst (Rooted "t1" sample_departments) ((eq_iff "root" x).0 e) Rooted-root
        | inr not_root ↦ absurd (false≢true (rw (not_west, not_sales, not_lab, not_root) at h))
      ]
    ]
  ]
]

abbrev moved : Db
moved = (within_transaction up (move_department up 3 "t1" "sales" "lab" whole 50) sample).1

move :
    within_transaction up (move_department up 3 "t1" "sales" "lab" whole 50) sample ≡ (ok tt, moved)
unfolding within_transaction move_department visible_department department_visible actor_descendants
    actor_departments visible_query levels children ids filter subtree parent_of run control query
    exec_or ◌>>=◌ pure fail find update_where count_where constraints unique contains
move = refl

cycle_refused :
    (within_transaction up (move_department up 3 "t1" "sales" "west" whole 50) sample).0
    ≡ err (organization OrganizationError.cycle)
unfolding within_transaction move_department visible_department department_visible actor_descendants
    actor_departments visible_query levels children ids filter subtree parent_of run control query
    exec_or ◌>>=◌ pure fail find update_where count_where constraints unique contains
cycle_refused = refl
