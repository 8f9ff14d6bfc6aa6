-- ===== src/Database/Tx/Calls.antt =====
-- What a sequence of calls on the pool has done when it returns a result.
use modura.Prelude.{String, ◌≡◌, refl, subst}
use modura.Errors.{Error, Result, ok, err}
use modura.Database.{Db}
use modura.Database.Tx.Runs.{labelled_call-ok}
use modura.Database.Tx.{
  labelled_call, lift, Op, run, settle, pure, fail, and_then, after_result, on_error, after_error,
}

pub and_then-ok :
    {A B : Type 0} (m : Op A) (f : A → Op B) (db : Db) {b : B} {db' : Db}
    → and_then m f db ≡ (ok b, db')
    → (a : A) × (db1 : Db) × (m db ≡ (ok a, db1)) × (f a db1 ≡ (ok b, db'))
unfolding and_then after_result
and_then-ok {A} {B} m f db {b} {db'} h = go (m db) h
  where
    go :
        (r : Result A × Db)
        → after_result r f ≡ (ok b, db')
        → (a : A) × (db1 : Db) × (r ≡ (ok a, db1)) × (f a db1 ≡ (ok b, db'))
    go (err e, d) k = cc
    go (ok a, d) k = (a, d, refl, k)

-- A call that only hands on a result.
pub lifted-ok :
    {A : Type 0} (r : Result A) (db : Db) {a : A} {db' : Db}
    → run (pure r) db ≡ (ok a, db')
    → (r ≡ ok a) × (db' ≡ db)
unfolding run settle pure
lifted-ok r db h = (cc h, cc h)

pub refused-not_ok :
    {A : Type 0} (e : Error) (db : Db) {a : A} {db' : Db} → run (fail e) db ≡ (ok a, db') → ⊥
unfolding run settle fail
refused-not_ok e db h = cc h

pub on_error-ok :
    {A : Type 0} (f : Error → Error) (m : Op A) (db : Db) {a : A} {db' : Db}
    → on_error f m db ≡ (ok a, db')
    → m db ≡ (ok a, db')
unfolding on_error after_error
on_error-ok {A} f m db {a} {db'} h = go (m db) h
  where
    go : (r : Result A × Db) → after_error f r ≡ (ok a, db') → r ≡ (ok a, db')
    go (ok x, d) k = k
    go (err x, d) k = cc

-- The same with what follows as a continuation, so that what was returned is a variable there.
module _ {A B : Type 0} {C : Type 0} {b : B} {db' : Db} where
  pub called :
      (m : Op A) (f : A → Op B) (db : Db)
      → and_then m f db ≡ (ok b, db')
      → ((a : A) (db1 : Db) → m db ≡ (ok a, db1) → f a db1 ≡ (ok b, db') → C)
      → C
  called m f db h k = let (a, db1, first, rest) = and_then-ok m f db h in k a db1 first rest

  -- A value that is generated outside of the database.
  pub drawn :
      (s : String) (r : Result A) (f : A → Op B) (db : Db)
      → and_then (labelled_call s (lift r)) f db ≡ (ok b, db')
      → ((a : A) → r ≡ ok a → f a db ≡ (ok b, db') → C)
      → C
  drawn s r f db h k = called (labelled_call s (lift r)) f db h λ a db1 first rest.
      let (e, same) = lifted-ok r db (labelled_call-ok s (lift r) db first) in
      k a e (subst (λ d. f a d ≡ (ok b, db')) same rest)
