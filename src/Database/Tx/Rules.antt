-- ===== src/Database/Tx/Rules.antt =====
-- Rules for what a transaction ensures when it succeeds.
use modura.Prelude.{
  ℕ, String, Bool, true, false, ◌≡◌, refl, Bool-cases, inl, inr, if◌then◌else◌, subst, sym,
}
use mathlib.Core.Path.{subst₂}
use modura.Errors.{wrapped, Error, Result, ok, err}
use modura.Database.{Db}
use modura.Database.Constraints.{constraints}
use modura.Database.Tx.Failures.{Fails, fails_bind, fails_control, fails_query}
use modura.Database.Tx.{
  labelled, from_result, Faults, Tx, bind_result, ◌>>=◌, pure, fail, control, query, exec_or,
  failure,
}

pub record Ensures {A : Type 0} (m : Tx A) (db : Db) (P : A → Db → Type 0) : Type 0 where
  pub holds : (a : A) (db' : Db) → m db ≡ ok (a, db') → P a db'

bind_result-eq-ok :
    {A B : Type 0} (r : Result (A × Db)) (f : A → Tx B) {x : B × Db}
    → bind_result r f ≡ ok x
    → (a : A) × (db : Db) × (r ≡ ok (a, db)) × (f a db ≡ ok x)
unfolding bind_result
bind_result-eq-ok (err e) f h = cc
bind_result-eq-ok (ok (a, db)) f h = (a, db, refl, h)

pub >>=-eq-ok :
    {A B : Type 0} (m : Tx A) (f : A → Tx B) (db : Db) {x : B × Db}
    → (m >>= f) db ≡ ok x
    → (a : A) × (db' : Db) × (m db ≡ ok (a, db')) × (f a db' ≡ ok x)
unfolding ◌>>=◌
>>=-eq-ok m f db h = bind_result-eq-ok (m db) f h

pub control-eq-ok :
    (down : Faults) (label : String) (db : Db) {u : Unit} {db' : Db}
    → control down label db ≡ ok (u, db')
    → db ≡ db'
unfolding control
control-eq-ok down label db h = elim (Bool-cases (down label 0)) [
  | inl e ↦ cc (rw e at h)
  | inr e ↦ cc (rw e at h)
]

query-eq-ok :
    {A : Type 0} (down : Faults) (label : String) (read : Db → A) (db : Db) {a : A} {db' : Db}
    → query down label read db ≡ ok (a, db')
    → (read db ≡ a) × (db ≡ db')
unfolding query
query-eq-ok down label read db h = elim (Bool-cases (down label 0)) [
  | inl e ↦ cc (rw e at h)
  | inr e ↦ let h' = rw e at h in (cc h', cc h')
]

exec-eq-ok :
    (refused : Error) (down : Faults) (round : ℕ) (label : String) (change : Db → ℕ × Db) (db : Db)
    {n : ℕ} {db' : Db}
    → exec_or refused down round label change db ≡ ok (n, db')
    → (change db ≡ (n, db')) × (constraints db' ≡ true)
unfolding exec_or
exec-eq-ok refused down round label change db h = elim (Bool-cases (down label round)) [
  | inl e ↦ cc (rw e at h)
  | inr e ↦ elim (Bool-cases (constraints (change db).1)) [
    | inl k ↦ let h' = rw (e, k) at h in (cc h', subst (λ r. constraints r ≡ true) (cc h') k)
    | inr k ↦ cc (rw (e, k) at h)
  ]
]

module _ {A : Type 0} {P : A → Db → Type 0} {db : Db} where
  pub ensures_pure : (a : A) → P a db → Ensures (pure a) db P
  unfolding pure
  ensures_pure a h = record { holds = λ b db' e. subst₂ P (cc e) (cc e) h }

  pub ensures_fail : (e : Error) → Ensures (fail e) db P
  unfolding fail
  ensures_fail e = record { holds = λ b db' h. cc h }

  pub ensures_if :
      (b : Bool) {m n : Tx A}
      → (b ≡ true → Ensures m db P)
      → (b ≡ false → Ensures n db P)
      → Ensures (if b then m else n) db P
  ensures_if true k l = k refl
  ensures_if false k l = l refl

  pub ensures_query :
      (down : Faults) (label : String) (read : Db → A)
      → P (read db) db
      → Ensures (query down label read) db P
  ensures_query down label read h = record {
    holds =
        λ a db' e. let (same, still) = query-eq-ok down label read db e in subst₂ P same still h;
  }

  pub then_control :
      (down : Faults) (label : String) (f : Unit {0} → Tx A)
      → Ensures (f tt) db P
      → Ensures (control down label >>= f) db P
  then_control down label f k = record {
    holds = λ b db' h.
        let (u, db1, c, h') = >>=-eq-ok (control down label) f db h in
        k.holds b db' (subst (λ d. f tt d ≡ ok (b, db')) (sym (control-eq-ok down label db c)) h');
  }

  pub then_query :
      {B : Type 0} (down : Faults) (label : String) (read : Db → B) (f : B → Tx A)
      → Ensures (f (read db)) db P
      → Ensures (query down label read >>= f) db P
  then_query down label read f k = record {
    holds = λ b db' h.
        let (a, db1, c, h') = >>=-eq-ok (query down label read) f db h in
        let (same, still) = query-eq-ok down label read db c in
        k.holds b db' (subst₂ (λ x d. f x d ≡ ok (b, db')) (sym same) (sym still) h');
  }

  -- The constraints hold after a statement that writes.
  pub then_exec_held :
      (refused : Error) (down : Faults) (round : ℕ) (label : String) (change : Db → ℕ × Db)
      (f : ℕ → Tx A)
      → (constraints (change db).1 ≡ true → Ensures (f (change db).0) (change db).1 P)
      → Ensures (exec_or refused down round label change >>= f) db P
  then_exec_held refused down round label change f k = record {
    holds = λ b db' h.
        let (n, db1, c, h') = >>=-eq-ok (exec_or refused down round label change) f db h in
        let (moved, kept) = exec-eq-ok refused down round label change db c in
        (k (subst (λ p. constraints p.1 ≡ true) (sym moved) kept)).holds b db'
          (subst (λ p. f p.0 p.1 ≡ ok (b, db')) (sym moved) h');
  }

  pub then_exec :
      (refused : Error) (down : Faults) (round : ℕ) (label : String) (change : Db → ℕ × Db)
      (f : ℕ → Tx A)
      → Ensures (f (change db).0) (change db).1 P
      → Ensures (exec_or refused down round label change >>= f) db P
  then_exec refused down round label change f k =
      then_exec_held refused down round label change f λ _. k

  pub then_pure :
      {B : Type 0} (b : B) (f : B → Tx A) → Ensures (f b) db P → Ensures (pure b >>= f) db P
  unfolding ◌>>=◌ pure bind_result
  then_pure b f k = record { holds = k.holds }

  pub then_any :
      {B : Type 0} {Q : B → Db → Type 0} (m : Tx B) (f : B → Tx A)
      → Ensures m db Q
      → ((a : B) (db1 : Db) → Q a db1 → Ensures (f a) db1 P)
      → Ensures (m >>= f) db P
  then_any m f j k = record {
    holds = λ b db' h.
        let (a, db1, c, h') = >>=-eq-ok m f db h in (k a db1 (j.holds a db1 c)).holds b db' h';
  }

  pub ensures_at : {m : Tx A} {d : Db} → db ≡ d → Ensures m d P → Ensures m db P
  ensures_at {m} same k = subst (λ d. Ensures m d P) (sym same) k

  pub then_result :
      {B : Type 0} (r : Result B) (f : B → Tx A)
      → ((b : B) → r ≡ ok b → Ensures (f b) db P)
      → Ensures (from_result r >>= f) db P
  unfolding ◌>>=◌ from_result bind_result
  then_result (ok b) f k = record { holds = (k b refl).holds }
  then_result (err e) f k = record { holds = λ a db' h. cc h }

  pub ensures_labelled : (s : String) (m : Tx A) → Ensures m db P → Ensures (labelled s m) db P
  unfolding labelled
  ensures_labelled s m k = record { holds = λ a db' h. k.holds a db' (ok-of-wrapped (m db) h) }
    where
      ok-of-wrapped : (r : Result (A × Db)) {x : A × Db} → wrapped s r ≡ ok x → r ≡ ok x
      ok-of-wrapped (ok y) e = e
      ok-of-wrapped (err y) e = cc e

  -- A step that changes nothing.
  pub then_kept :
      {B : Type 0} (m : Tx B) (f : B → Tx A)
      → Ensures m db (λ b db1. db1 ≡ db)
      → ((a : B) → Ensures (f a) db P)
      → Ensures (m >>= f) db P
  then_kept m f j k = then_any m f j λ a db1 same. subst (λ d. Ensures (f a) d P) (sym same) (k a)

module _ {A : Type 0} {E : Error → Type 0} {db : Db} where
  pub fails_then_control :
      (down : Faults) (label : String) (f : Unit {0} → Tx A)
      → E (failure label)
      → Fails (f tt) db E
      → Fails (control down label >>= f) db E
  fails_then_control down label f k l =
      fails_bind _ _ (fails_control down label k)
        λ u db1 c. subst (λ d. Fails (f tt) d E) (control-eq-ok down label db c) l

  pub fails_then_query :
      {B : Type 0} (down : Faults) (label : String) (read : Db → B) (f : B → Tx A)
      → E (failure label)
      → Fails (f (read db)) db E
      → Fails (query down label read >>= f) db E
  fails_then_query down label read f k l = fails_bind _ _ (fails_query down label read k) λ a db1 c.
      let (same, still) = query-eq-ok down label read db c in
      subst₂ (λ x d. Fails (f x) d E) same still l

pub weaken :
    {A : Type 0} {m : Tx A} {db : Db} {P Q : A → Db → Type 0}
    → Ensures m db P
    → ((a : A) (db' : Db) → P a db' → Q a db')
    → Ensures m db Q
weaken k w = record { holds = λ a db' e. w a db' (k.holds a db' e) }

pub ensures_from_result :
    {A : Type 0} {db : Db} (r : Result A)
    → Ensures (from_result r) db (λ a db'. (r ≡ ok a) × (db' ≡ db))
unfolding from_result
ensures_from_result (ok a) = record { holds = λ b db' h. (cc h, cc h) }
ensures_from_result (err e) = record { holds = λ b db' h. cc h }
