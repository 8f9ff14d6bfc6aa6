-- ===== src/Prelude/Rows.antt =====
-- Statements on a table, held as the list of its rows: SELECT, UPDATE, DELETE and UNIQUE.
use Prim.Native.Nat.{ℕ, suc}
use mathlib.Core.Path.{◌≡◌, refl, sym, subst, ap, ◌∙◌}
use mathlib.Core.Logic.{inl, inr}
use mathlib.Core.Bool.{Bool, true, false, false≢true, not, ◌&&◌, ◌||◌}
use mathlib.Core.Option.{Option, none, some}
use mathlib.Core.List.{List, [], ◌∷◌, ◌++◌}
use native.Mathlib.Omega.{arith}
use modura.Prelude.Tests.{if◌then◌else◌, Bool-cases, is_some}
use modura.Prelude.Lists.{any, filter, insert_sorted, insertion_sort}

module _ {ℓ} {A : Type ℓ} where
  -- SELECT … WHERE p, of which `QueryRow` reads the first row.
  unfoldable pub find : (A → Bool) → List A → Option A
  find p [] = none
  find p (x ∷ xs) = if p x then some x else find p xs

  -- How many rows a statement with this WHERE clause affects.
  unfoldable pub count_where : (A → Bool) → List A → ℕ
  count_where p [] = 0
  count_where p (x ∷ xs) = let rest = count_where p xs in if p x then suc rest else rest

  -- UPDATE … SET f WHERE p.
  unfoldable pub update_where : (A → Bool) → (A → A) → List A → List A
  update_where p f [] = []
  update_where p f (x ∷ xs) = (if p x then f x else x) ∷ update_where p f xs

  -- DELETE … WHERE p.
  unfoldable pub delete_where : (A → Bool) → List A → List A
  delete_where p [] = []
  delete_where p (x ∷ xs) = let rest = delete_where p xs in if p x then rest else x ∷ rest

  -- UNIQUE: no two rows are the same under the test.
  unfoldable pub unique : (A → A → Bool) → List A → Bool
  unique same [] = true
  unique same (x ∷ xs) = not (any (same x) xs) && unique same xs

-- What holds of the rows that a statement reads or leaves.
pub or_true : (b : Bool) → (b || true) ≡ true
or_true false = refl
or_true true = refl

module _ {ℓ} {A : Type ℓ} (p : A → Bool) where
  pub find_sound : (xs : List A) {y : A} → find p xs ≡ some y → p y ≡ true
  unfolding find
  find_sound [] h = cc
  find_sound (x ∷ xs) {y} h = ground (arith, find_sound xs {y = y})

  pub find-of-any-false : (xs : List A) → any p xs ≡ false → find p xs ≡ none
  unfolding find
  find-of-any-false [] h = refl
  find-of-any-false (x ∷ xs) h = ground (arith, find-of-any-false xs)

  pub find-of-any-true : (xs : List A) → any p xs ≡ true → (x : A) × (find p xs ≡ some x)
  unfolding find
  find-of-any-true [] h = absurd (false≢true h)
  find-of-any-true (x ∷ xs) h = elim (Bool-cases (p x)) [
    | inl here ↦ (x, rw here)
    | inr there ↦ let (y, e) = find-of-any-true xs (ground arith) in (y, rw there e)
  ]

  -- No row satisfies `q` after an update, if neither an updated row does nor one left alone.
  pub any-update_where-false :
      (q : A → Bool) (f : A → A) (xs : List A)
      → ((x : A) → p x ≡ true → q (f x) ≡ false)
      → ((x : A) → p x ≡ false → q x ≡ false)
      → any q (update_where p f xs) ≡ false
  unfolding update_where
  any-update_where-false q f [] changed kept = refl
  any-update_where-false q f (x ∷ xs) changed kept =
      ground (arith, any-update_where-false q f xs changed kept, changed x, kept x)

  -- A row that was read and that the update reaches satisfies what its new version satisfies.
  pub any-update_where-true :
      (q r : A → Bool) (f : A → A) (xs : List A) {x : A}
      → find q xs ≡ some x
      → p x ≡ true
      → r (f x) ≡ true
      → any r (update_where p f xs) ≡ true
  unfolding find update_where
  any-update_where-true q r f [] h k l = cc
  any-update_where-true q r f (y ∷ xs) {x} h k l = elim (Bool-cases (q y)) [
    | inl here ↦
        let same : y ≡ x = cc (rw here at h) in
        rw (subst (λ z. p z ≡ true) (sym same) k, subst (λ z. r (f z) ≡ true) (sym same) l)
    | inr there ↦ rw (any-update_where-true q r f xs (rw there at h) k l, or_true)
  ]

  pub find-cons_self : {x : A} (xs : List A) → p x ≡ true → find p (x ∷ xs) ≡ some x
  unfolding find
  find-cons_self xs h = rw h

  pub any-of-is_some-find : (xs : List A) → is_some (find p xs) ≡ true → any p xs ≡ true
  unfolding find
  any-of-is_some-find [] h = h
  any-of-is_some-find (x ∷ xs) h = ground (arith, any-of-is_some-find xs)

  pub any-false : (xs : List A) → ((x : A) → p x ≡ false) → any p xs ≡ false
  any-false [] h = refl
  any-false (x ∷ xs) h = ground (arith, any-false xs h, h x)

  -- As `any-update_where-false`, where no row satisfied `n` before.
  pub any-update_where-false_of :
      (n q : A → Bool) (f : A → A) (xs : List A)
      → any n xs ≡ false
      → ((x : A) → p x ≡ true → q (f x) ≡ false)
      → ((x : A) → p x ≡ false → n x ≡ false → q x ≡ false)
      → any q (update_where p f xs) ≡ false
  unfolding update_where
  any-update_where-false_of n q f [] none_before changed kept = refl
  any-update_where-false_of n q f (x ∷ xs) none_before changed kept =
      ground
        (arith, any-update_where-false_of n q f xs (ground arith) changed kept, changed x, kept x)

  pub count_where-of-any-false : (xs : List A) → any p xs ≡ false → count_where p xs ≡ 0
  unfolding count_where
  count_where-of-any-false [] h = refl
  count_where-of-any-false (x ∷ xs) h = ground (arith, count_where-of-any-false xs)

pub any_imply_false {ℓ} :
    {A : Type ℓ} (p q : A → Bool) (xs : List A)
    → any p xs ≡ false
    → ((x : A) → p x ≡ false → q x ≡ false)
    → any q xs ≡ false
any_imply_false p q [] h k = refl
any_imply_false p q (x ∷ xs) h k = ground (arith, any_imply_false p q xs (ground arith) k, k x)

-- A row that was read does not satisfy what no row satisfies.
pub find-any-false {ℓ} :
    {A : Type ℓ} (p q : A → Bool) (xs : List A) {x : A}
    → find p xs ≡ some x
    → any q xs ≡ false
    → q x ≡ false
unfolding find
find-any-false p q [] h k = cc
find-any-false p q (y ∷ xs) {x} h k = elim (Bool-cases (p y)) [
  | inl here ↦ let same : y ≡ x = cc (rw here at h) in subst (λ z. q z ≡ false) same (ground arith)
  | inr there ↦ find-any-false p q xs (rw there at h) (ground arith)
]

pub count_where-cons_self {ℓ} :
    {A : Type ℓ} (p : A → Bool) {x : A} (xs : List A) {n : ℕ}
    → p x ≡ true
    → count_where p xs ≡ n
    → count_where p (x ∷ xs) ≡ suc n
unfolding count_where
count_where-cons_self p xs h k = rw h (ap suc k)

-- A selection that no deleted row was in stays as it was.
pub filter-delete_where {ℓ} :
    {A : Type ℓ} (q p : A → Bool) (xs : List A)
    → ((x : A) → p x ≡ true → q x ≡ false)
    → filter q (delete_where p xs) ≡ filter q xs
unfolding filter delete_where
filter-delete_where q p [] h = refl
filter-delete_where q p (x ∷ xs) h = elim (Bool-cases (p x)) [
  | inl e ↦ rw (e, h x e) (filter-delete_where q p xs h)
  | inr e ↦ elim (Bool-cases (q x)) [
    | inl k ↦ rw (e, k) (ap (λ l. x ∷ l) (filter-delete_where q p xs h))
    | inr k ↦ rw (e, k) (filter-delete_where q p xs h)
  ]
]

pub filter-cons_false {ℓ} :
    {A : Type ℓ} (q : A → Bool) {x : A} (xs : List A)
    → q x ≡ false
    → filter q (x ∷ xs) ≡ filter q xs
unfolding filter
filter-cons_false q xs h = rw h

or_self {ℓ} : {A : Type ℓ} → A → Option A → A
or_self y none = y
or_self y (some x) = x

-- The row that a statement reads after an update that keeps what it reads by.
pub find-update_where {ℓ} :
    {A : Type ℓ} (p : A → Bool) (f : A → A) (xs : List A) {x : A}
    → find p xs ≡ some x
    → ((y : A) → p y ≡ true → p (f y) ≡ true)
    → find p (update_where p f xs) ≡ some (f x)
unfolding find update_where or_self
find-update_where p f [] h k = cc
find-update_where p f (y ∷ ys) {x} h k = elim (Bool-cases (p y)) [
  | inl e ↦ rw (e, k y e) (ap (λ o. some (f (or_self y o))) (rw e at h))
  | inr e ↦ rw (e, e) (find-update_where p f ys (rw e at h) k)
]

pub any-append {ℓ} :
    {A : Type ℓ} (p : A → Bool) (xs ys : List A) → any p (xs ++ ys) ≡ (any p xs || any p ys)
any-append p [] ys = refl
any-append p (x ∷ xs) ys = ground (arith, any-append p xs ys)

any-insert_sorted {ℓ} :
    {A : Type ℓ} (before : A → A → Bool) (p : A → Bool) (x : A) (xs : List A)
    → any p (insert_sorted before x xs) ≡ (p x || any p xs)
unfolding insert_sorted
any-insert_sorted before p x [] = refl
any-insert_sorted before p x (y ∷ ys) = ground (arith, any-insert_sorted before p x ys)

pub any-insertion_sort {ℓ} :
    {A : Type ℓ} (before : A → A → Bool) (p : A → Bool) (xs : List A)
    → any p (insertion_sort before xs) ≡ any p xs
unfolding insertion_sort
any-insertion_sort before p [] = refl
any-insertion_sort before p (x ∷ xs) =
    any-insert_sorted before p x (insertion_sort before xs)
    ∙ ap (λ b. p x || b) (any-insertion_sort before p xs)

pub any-filter {ℓ} :
    {A : Type ℓ} (q p : A → Bool) (xs : List A) → any p (filter q xs) ≡ any (λ x. q x && p x) xs
unfolding filter
any-filter q p [] = refl
any-filter q p (x ∷ xs) = ground (arith, any-filter q p xs)
