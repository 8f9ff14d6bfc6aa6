-- ===== src/Prelude/Uniques.antt =====
-- Rows of a table with a unique key.
use mathlib.Core.Path.{◌≡◌, refl, sym, subst}
use mathlib.Core.Logic.{inl, inr}
use mathlib.Core.Bool.{Bool, true, false}
use mathlib.Core.Option.{some}
use mathlib.Core.List.{List, [], ◌∷◌}
use native.Mathlib.Omega.{arith}
use modura.Prelude.Tests.{Bool-cases}
use modura.Prelude.Lists.{any}
use modura.Prelude.Rows.{find, update_where, unique, any_imply_false}
use modura.Prelude.Selections.{any-of-find}

pub update_where-none {ℓ} :
    {A : Type ℓ} (p : A → Bool) (f : A → A) (xs : List A)
    → any p xs ≡ false
    → update_where p f xs ≡ xs
unfolding update_where
update_where-none p f [] h = refl
update_where-none p f (x ∷ xs) h = elim (Bool-cases (p x)) [
  | inl e ↦ cc (rw e at h)
  | inr e ↦ rw (e, update_where-none p f xs (rw e at h))
]

module _ {ℓ} {A : Type ℓ} (same : A → A → Bool) where
  pub unique-head :
      (x : A) (xs : List A)
      → unique same (x ∷ xs) ≡ true
      → (any (same x) xs ≡ false) × (unique same xs ≡ true)
  unfolding unique
  unique-head x xs h = (ground arith, ground arith)

  -- Two rows that were read and have the same key are one.
  pub find-same :
      (q r : A → Bool) (xs : List A) {a b : A}
      → unique same xs ≡ true
      → find q xs ≡ some a
      → find r xs ≡ some b
      → same a b ≡ true
      → same b a ≡ true
      → a ≡ b
  unfolding find
  find-same q r [] u h k l m = cc
  find-same q r (x ∷ xs) {a} {b} u h k l m =
      let (alone, rest) = unique-head x xs u in
      elim (Bool-cases (q x)) [
        | inl e ↦
            let xa : x ≡ a = cc (rw e at h) in
            elim (Bool-cases (r x)) [
              | inl f ↦ let xb : x ≡ b = cc (rw f at k) in cc (xa, xb)
              | inr f ↦
                  let there =
                    any-of-find r (same x) xs (rw f at k)
                      (subst (λ y. same y b ≡ true) (sym xa) l) in
                  cc (there, alone)
            ]
        | inr e ↦ elim (Bool-cases (r x)) [
          | inl f ↦
              let xb : x ≡ b = cc (rw f at k) in
              let there =
                any-of-find q (same x) xs (rw e at h) (subst (λ y. same y a ≡ true) (sym xb) m) in
              cc (there, alone)
          | inr f ↦ find-same q r xs rest (rw e at h) (rw f at k) l m
        ]
      ]

  -- An update of the one row with a key is not seen by a selection that does not read this row.
  pub find-update_alone :
      (q r p : A → Bool) (f : A → A) (xs : List A) {d : A}
      → find r xs ≡ some d
      → p d ≡ true
      → q d ≡ false
      → unique same xs ≡ true
      → ((x y : A) → p x ≡ true → p y ≡ true → same x y ≡ true)
      → ((x : A) → q (f x) ≡ q x)
      → find q (update_where p f xs) ≡ find q xs
  unfolding find update_where
  find-update_alone q r p f [] h k l u m n = cc
  find-update_alone q r p f (x ∷ xs) {d} h k l u m n =
      let (alone, rest) = unique-head x xs u in
      elim (Bool-cases (p x)) [
        | inl here ↦
            let none_left =
              any_imply_false (same x) p xs alone
                λ y e. elim (Bool-cases (p y)) [ inl g ↦ cc (m x y here g, e) | inr g ↦ g ] in
            elim (Bool-cases (r x)) [
              | inl e ↦
                  let xd : x ≡ d = cc (rw e at h) in
                  let qx : q x ≡ false = subst (λ y. q y ≡ false) (sym xd) l in
                  rw (here, n x, qx, update_where-none p f xs none_left)
              | inr e ↦ let there = any-of-find r p xs (rw e at h) k in cc (there, none_left)
            ]
        | inr there ↦ elim (Bool-cases (r x)) [
          | inl e ↦
              let xd : x ≡ d = cc (rw e at h) in cc (subst (λ y. p y ≡ true) (sym xd) k, there)
          | inr e ↦ elim (Bool-cases (q x)) [
            | inl g ↦ rw (there, g)
            | inr g ↦ rw (there, g) (find-update_alone q r p f xs (rw e at h) k l rest m n)
          ]
        ]
      ]
