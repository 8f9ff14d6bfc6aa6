-- ===== src/Database/Tx/Runs.antt =====
-- What a call on the pool leaves, given what its body ensures.
use modura.Prelude.{String, ◌≡◌, refl, inl, inr, ◌⊎◌}
use mathlib.Core.Path.{subst₂}
use modura.Errors.{wrapped, Error, Result, ok, err}
use modura.Database.{Db}
use modura.Database.Tx.Failures.{Fails}
use modura.Database.Tx.{labelled_call, Op, Tx, run, settle}
use modura.Database.Tx.Rules.{Ensures}

settle-cases :
    {A : Type 0} (db : Db) (o : Result (Result A × Db)) {r : Result A} {db' : Db}
    → settle db o ≡ (r, db')
    → (o ≡ ok (r, db')) ⊎ ((e : Error) × (r ≡ err e) × (db' ≡ db))
unfolding settle
settle-cases db (err e) h = inr (e, cc h, cc h)
settle-cases db (ok x) h = inl (cc h)

-- The result of a call that holds of a committed result or of the error.
pub run-splits :
    {A : Type 0} {body : Tx (Result A)} {db : Db} {P : Result A → Db → Type 0} {E : Error → Type 0}
    → Ensures body db P
    → Fails body db E
    → {r : Result A} {db' : Db} → run body db ≡ (r, db')
    → P r db' ⊎ ((e : Error) × (r ≡ err e) × (db' ≡ db) × E e)
unfolding run settle
run-splits {A} {body} {db} {P} {E} k l {r} {db'} h = go (body db) refl h
  where
    go :
        (o : Result (Result A × Db))
        → body db ≡ o
        → settle db o ≡ (r, db')
        → P r db' ⊎ ((e : Error) × (r ≡ err e) × (db' ≡ db) × E e)
    go (err e) c h = inr (e, cc h, cc h, l.with_error e c)
    go (ok (a, d)) c h = inl (subst₂ P (cc h) (cc h) (k.holds a d c))

-- A call on the pool commits its body's result, or reports an error and changes nothing.
pub run-cases :
    {A : Type 0} (body : Tx (Result A)) (db : Db) {r : Result A} {db' : Db}
    → run body db ≡ (r, db')
    → (body db ≡ ok (r, db')) ⊎ ((e : Error) × (r ≡ err e) × (db' ≡ db))
unfolding run
run-cases body db h = settle-cases db (body db) h

-- What the body ensures of a result holds of the call's result, if that is no error.
pub run-ensures :
    {A : Type 0} {body : Tx (Result A)} {db : Db} {P : Result A → Db → Type 0}
    → Ensures body db P
    → {a : A} {db' : Db} → run body db ≡ (ok a, db')
    → P (ok a) db'
run-ensures {body = body} {db} k {a} {db'} h = elim (run-cases body db h) [
  | inl Committed ↦ k.holds (ok a) db' Committed
  | inr (e, wrong, same) ↦ absurd (cc wrong)
]

pub labelled_call-ok :
    {A : Type 0} (s : String) (m : Op A) (db : Db) {a : A} {db' : Db}
    → labelled_call s m db ≡ (ok a, db')
    → m db ≡ (ok a, db')
unfolding labelled_call
labelled_call-ok {A} s m db {a} {db'} h = go (m db) h
  where
    go :
        (r : Result A × Db)
        → ◌≡◌ {A = Result A × Db} (wrapped s r.0, r.1) (ok a, db')
        → r ≡ (ok a, db')
    go (ok x, d) e = cc e
    go (err x, d) e = cc e
