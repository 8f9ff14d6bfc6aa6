-- ===== src/Database/Tx/Atomic.antt =====
-- Transactor.WithinTransaction in backend/internal/platform/database/transactor.go.
use modura.Prelude.{◌≡◌, refl, ◌⊎◌, inl, inr, subst}
use modura.Errors.{Error, Result, ok, err}
use modura.Database.{Db}
use modura.Database.Tx.{Faults, Tx, pure, control, ◌>>=◌, within_transaction}
use modura.Database.Tx.Rules.{Ensures, ensures_pure, then_control, then_any}
use modura.Database.Tx.Runs.{run-cases}

module _ {A : Type 0} (down : Faults) (work : Tx A) (db : Db) where
  abbrev pub Committed : Result A → Db → Type 0
  Committed r db' = (a : A) × (work db ≡ ok (a, db')) × (r ≡ ok a)

  body-ensures :
      Ensures
        (control down "begin transaction" >>= λ _.
          work >>= λ a. control down "commit transaction" >>= λ _. pure (ok a))
        db
        Committed
  body-ensures = then_control _ _ _ (
      then_any {Q = λ a d. work db ≡ ok (a, d)} _ _ (record { holds = λ a d e. e })
        λ a d e. then_control _ _ _ (ensures_pure _ (a, e, refl)))

  -- A unit of work that succeeds is committed whole, with its result; any error, of the work or of
  -- the transaction, leaves the database as it was.
  pub within_transaction_atomic :
      (r : Result A) (db' : Db)
      → within_transaction down work db ≡ (r, db')
      → Committed r db' ⊎ ((e : Error) × (r ≡ err e) × (db' ≡ db))
  unfolding within_transaction
  within_transaction_atomic r db' done = elim (run-cases _ db done) [
    | inl whole ↦ inl (body-ensures.holds r db' whole)
    | inr rolled_back ↦ inr rolled_back
  ]

  pub within_transaction-ensures :
      {P : A → Db → Type 0} {a : A} {db' : Db}
      → Ensures work db P
      → within_transaction down work db ≡ (ok a, db')
      → P a db'
  within_transaction-ensures {P} {a} {db'} k done =
      elim (within_transaction_atomic (ok a) db' done) [
        | inl (b, whole, same) ↦ k.holds a db' (subst (λ c. work db ≡ ok (c, db')) (cc same) whole)
        | inr (e, wrong, _) ↦ absurd (cc wrong)
      ]
