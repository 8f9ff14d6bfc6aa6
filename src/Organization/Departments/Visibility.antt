-- ===== src/Organization/Departments/Visibility.antt =====
-- The visibility checks change nothing, and let through only what their query finds visible.
use modura.Prelude.{
  String, Bool, true, Option, some, ◌≡◌, Bool-cases, inl, inr, Option-cases, subst, sym,
}
use modura.Errors.{ok}
use modura.Database.{Db}
use modura.Database.Tx.{Faults, Tx, pure, fail, ◌>>=◌}
use modura.Database.Tx.Rules.{Ensures, >>=-eq-ok}
use modura.Organization.Departments.{visible_query}

visible_query-eq-ok :
    (down : Faults) (label : String) (read : Db → Option Bool) (db : Db) {b : Bool} {db' : Db}
    → visible_query down label read db ≡ ok (b, db')
    → (db ≡ db') × (b ≡ true → read db ≡ some true)
unfolding visible_query pure fail
visible_query-eq-ok down label read db {b} h = elim (Bool-cases (down label 0)) [
  | inl e ↦ (cc (rw e at h), λ t. cc (rw e at h))
  | inr e ↦ elim (Option-cases (read db)) [
    | inl none_yet ↦ cc (rw (e, none_yet) at h)
    | inr (c, found) ↦ let h' = rw (e, found) at h in (cc h', λ t. cc (h', found))
  ]
]

module _ {A : Type 0} {P : A → Db → Type 0} {db : Db} where
  pub then_visible :
      (down : Faults) (label : String) (read : Db → Option Bool) (f : Bool → Tx A)
      → ((b : Bool) → (b ≡ true → read db ≡ some true) → Ensures (f b) db P)
      → Ensures (visible_query down label read >>= f) db P
  then_visible down label read f k = record {
    holds = λ a db' h.
        let (b, db1, c, h') = >>=-eq-ok (visible_query down label read) f db h in
        let (still, seen) = visible_query-eq-ok down label read db c in
        (k b seen).holds a db' (subst (λ d. f b d ≡ ok (a, db')) (sym still) h');
  }
