-- ===== src/Database/Tx/Failures.antt =====
-- Rules for the errors that a transaction may end with.
use modura.Prelude.{
  ℕ, String, Bool, true, false, ◌≡◌, refl, Bool-cases, inl, inr, ◌⊎◌, if◌then◌else◌, subst,
}
use modura.Errors.{Error, Result, ok, err}
use modura.Database.{Db}
use modura.Database.Constraints.{constraints}
use modura.Database.Tx.{
  Faults, Tx, bind_result, ◌>>=◌, pure, fail, control, query, exec_or, failure,
}

pub record Fails {A : Type 0} (m : Tx A) (db : Db) (E : Error → Type 0) : Type 0 where
  pub with_error : (e : Error) → m db ≡ err e → E e

bind_result-eq-err :
    {A B : Type 0} (r : Result (A × Db)) (f : A → Tx B) {e : Error}
    → bind_result r f ≡ err e
    → (r ≡ err e) ⊎ ((a : A) × (db : Db) × (r ≡ ok (a, db)) × (f a db ≡ err e))
unfolding bind_result
bind_result-eq-err (err x) f h = inl (cc h)
bind_result-eq-err (ok (a, db)) f h = inr (a, db, refl, h)

module _ {A : Type 0} {E : Error → Type 0} {db : Db} where
  pub fails_pure : (a : A) → Fails (pure a) db E
  unfolding pure
  fails_pure a = record { with_error = λ e h. cc h }

  pub fails_fail : (x : Error) → E x → Fails {A = A} (fail x) db E
  unfolding fail
  fails_fail x k = record { with_error = λ e h. subst E (cc h) k }

  pub fails_if :
      (b : Bool) {m n : Tx A} → Fails m db E → Fails n db E → Fails (if b then m else n) db E
  fails_if true k l = k
  fails_if false k l = l

  pub fails_bind :
      {B : Type 0} (m : Tx B) (f : B → Tx A)
      → Fails m db E
      → ((a : B) (db1 : Db) → m db ≡ ok (a, db1) → Fails (f a) db1 E)
      → Fails (m >>= f) db E
  unfolding ◌>>=◌
  fails_bind m f j k = record {
    with_error = λ e h. elim (bind_result-eq-err (m db) f h) [
      | inl here ↦ j.with_error e here
      | inr (a, db1, c, later) ↦ (k a db1 c).with_error e later
    ];
  }

module _ {E : Error → Type 0} {db : Db} where
  pub fails_control :
      (down : Faults) (label : String) → E (failure label) → Fails (control down label) db E
  unfolding control
  fails_control down label k = record {
    with_error = λ e h. elim (Bool-cases (down label 0)) [
      | inl d ↦ subst E (cc (rw d at h)) k
      | inr d ↦ absurd (cc (rw d at h))
    ];
  }

  pub fails_query :
      {B : Type 0} (down : Faults) (label : String) (read : Db → B)
      → E (failure label)
      → Fails (query down label read) db E
  unfolding query
  fails_query down label read k = record {
    with_error = λ e h. elim (Bool-cases (down label 0)) [
      | inl d ↦ subst E (cc (rw d at h)) k
      | inr d ↦ absurd (cc (rw d at h))
    ];
  }

  pub fails_exec :
      (refused : Error) (down : Faults) (round : ℕ) (label : String) (change : Db → ℕ × Db)
      → E (failure label)
      → E refused
      → Fails (exec_or refused down round label change) db E
  unfolding exec_or
  fails_exec refused down round label change k l = record {
    with_error = λ e h. elim (Bool-cases (down label round)) [
      | inl d ↦ subst E (cc (rw d at h)) k
      | inr d ↦ elim (Bool-cases (constraints (change db).1)) [
        | inl good ↦ absurd (cc (rw (d, good) at h))
        | inr bad ↦ subst E (cc (rw (d, bad) at h)) l
      ]
    ];
  }

pub ruleset failure_rules =
    (fails_pure, fails_fail, fails_if, fails_bind, fails_control, fails_query, fails_exec)
