-- ===== src/Prelude/Selections.antt =====
-- What a selection reads after an update or a deletion of other rows, or of its own.
use mathlib.Core.Path.{◌≡◌, refl, sym, subst, ap, ◌∙◌}
use mathlib.Core.Logic.{inl, inr}
use mathlib.Core.Bool.{Bool, true, false}
use mathlib.Core.Option.{some}
use mathlib.Core.List.{List, [], ◌∷◌}
use native.Mathlib.Omega.{arith}
use modura.Prelude.Tests.{Bool-cases}
use modura.Prelude.Lists.{filter, any}
use modura.Prelude.Rows.{or_true, find, update_where, delete_where}

module _ {ℓ} {A : Type ℓ} (q p : A → Bool) where
  -- An update of rows that it does not read.
  pub find-update_other :
      (f : A → A) (xs : List A)
      → ((x : A) → p x ≡ true → q x ≡ false)
      → ((x : A) → q (f x) ≡ q x)
      → find q (update_where p f xs) ≡ find q xs
  unfolding find update_where
  find-update_other f [] h k = refl
  find-update_other f (x ∷ xs) h k = elim (Bool-cases (p x)) [
    | inl e ↦ rw (e, k x, h x e) (find-update_other f xs h k)
    | inr e ↦ elim (Bool-cases (q x)) [
      | inl r ↦ rw (e, r)
      | inr r ↦ rw (e, r) (find-update_other f xs h k)
    ]
  ]

  -- An update of the row that it reads, which it reads still.
  pub find-update_found :
      (f : A → A) (xs : List A) {x : A}
      → find q xs ≡ some x
      → p x ≡ true
      → ((y : A) → q (f y) ≡ q y)
      → find q (update_where p f xs) ≡ some (f x)
  unfolding find update_where
  find-update_found f [] h l k = cc
  find-update_found f (y ∷ ys) {x} h l k = elim (Bool-cases (q y)) [
    | inl e ↦ read y e (cc (rw e at h))
    | inr e ↦ elim (Bool-cases (p y)) [
      | inl m ↦ rw (m, k y, e) (find-update_found f ys (rw e at h) l k)
      | inr m ↦ rw (m, e) (find-update_found f ys (rw e at h) l k)
    ]
  ]
    where
      read : (z : A) → q z ≡ true → z ≡ x → find q (update_where p f (z ∷ ys)) ≡ some (f x)
      read z e same =
          let qx : q x ≡ true = subst (λ y. q y ≡ true) same e in
          subst (λ y. find q (update_where p f (y ∷ ys)) ≡ some (f x)) (sym same) (rw (l, k x ∙ qx))

pub filter-cons_true {ℓ} :
    {A : Type ℓ} (q : A → Bool) {x : A} (xs : List A)
    → q x ≡ true
    → filter q (x ∷ xs) ≡ x ∷ filter q xs
unfolding filter
filter-cons_true q xs h = rw h

pub filter-delete_self {ℓ} :
    {A : Type ℓ} (p : A → Bool) (xs : List A) → filter p (delete_where p xs) ≡ []
unfolding filter delete_where
filter-delete_self p [] = refl
filter-delete_self p (x ∷ xs) = elim (Bool-cases (p x)) [
  | inl e ↦ rw e (filter-delete_self p xs)
  | inr e ↦ rw (e, e) (filter-delete_self p xs)
]

-- A selection that no changed row is in, before or after, stays as it was.
pub filter-update_where {ℓ} :
    {A : Type ℓ} (q p : A → Bool) (f : A → A) (xs : List A)
    → ((x : A) → p x ≡ true → (q x ≡ false) × (q (f x) ≡ false))
    → filter q (update_where p f xs) ≡ filter q xs
unfolding filter update_where
filter-update_where q p f [] h = refl
filter-update_where q p f (x ∷ xs) h = elim (Bool-cases (p x)) [
  | inl e ↦ rw (e, (h x e).0, (h x e).1) (filter-update_where q p f xs h)
  | inr e ↦ elim (Bool-cases (q x)) [
    | inl k ↦ rw (e, k) (ap (λ l. x ∷ l) (filter-update_where q p f xs h))
    | inr k ↦ rw (e, k) (filter-update_where q p f xs h)
  ]
]

-- A row that was read is there.
pub any-of-find {ℓ} :
    {A : Type ℓ} (p q : A → Bool) (xs : List A) {x : A}
    → find p xs ≡ some x
    → q x ≡ true
    → any q xs ≡ true
unfolding find
any-of-find p q [] h k = cc
any-of-find p q (y ∷ ys) {x} h k = elim (Bool-cases (p y)) [
  | inl here ↦ let same : y ≡ x = cc (rw here at h) in rw (subst (λ z. q z ≡ true) (sym same) k)
  | inr there ↦ rw (any-of-find p q ys (rw there at h) k, or_true)
]

-- An update does not change whether a row satisfies a test that does not read what it sets.
pub any-update_where_same {ℓ} :
    {A : Type ℓ} (p q : A → Bool) (f : A → A) (xs : List A)
    → ((x : A) → q (f x) ≡ q x)
    → any q (update_where p f xs) ≡ any q xs
unfolding update_where
any-update_where_same p q f [] h = refl
any-update_where_same p q f (x ∷ xs) h = ground (arith, h x, any-update_where_same p q f xs h)

pub any_imply_true {ℓ} :
    {A : Type ℓ} (p q : A → Bool) (xs : List A)
    → any p xs ≡ true
    → ((x : A) → p x ≡ true → q x ≡ true)
    → any q xs ≡ true
any_imply_true p q [] h k = h
any_imply_true p q (x ∷ xs) h k = elim (Bool-cases (p x)) [
  | inl here ↦ rw (k x here)
  | inr there ↦ rw (any_imply_true p q xs (rw there at h) k, or_true)
]
