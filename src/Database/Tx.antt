-- ===== src/Database/Tx.antt =====
-- Statements and transactions. A statement fails where the driver reports an error, which the
-- environment decides by the statement's label and the round of the loop it stands in, or where
-- its change breaks a constraint. The label is the text of the error that the source returns for
-- the statement. Transactions run one after another: what a lock waits for has ended.
-- backend/internal/platform/database/transactor.go is `within_transaction`.
pub mod Rules
pub mod Runs
pub mod Failures
pub mod Atomic
pub mod Calls
use modura.Prelude.{ℕ, zero, String, Bool, not, ◌||◌, if◌then◌else◌}
use modura.Errors.{Error, driver, wrap, wrapped, Result, ok, err}
use modura.Database.{Db}
use modura.Database.Constraints.{constraints}

abbrev pub Faults : Type 0
Faults = String → ℕ → Bool

-- What runs inside a transaction: on an error nothing of it is kept.
abbrev pub Tx : Type 0 → Type 0
Tx A = Db → Result (A × Db)

-- A call of a store: its result, and the database that it leaves.
abbrev pub Op : Type 0 → Type 0
Op A = Db → Result A × Db

bind_result : {A B : Type 0} → Result (A × Db) → (A → Tx B) → Result (B × Db)
bind_result (err e) f = err e
bind_result (ok (a, db)) f = f a db

infixl 5 ◌>>=◌ ◌>>◌
unfoldable pub ◌>>=◌ : {A B : Type 0} → Tx A → (A → Tx B) → Tx B
unfolding bind_result
◌>>=◌ m f db = bind_result (m db) f

abbrev pub ◌>>◌ : {A B : Type 0} → Tx A → Tx B → Tx B
m >> k = m >>= λ _. k

unfoldable pub pure : {A : Type 0} → A → Tx A
pure a db = ok (a, db)

unfoldable pub fail : {A : Type 0} → Error → Tx A
fail e db = err e

abbrev pub failure : String → Error
failure label = wrap label driver

-- BEGIN and COMMIT change nothing by themselves.
unfoldable pub control : Faults → String → Tx (Unit {0})
control down label db = if down label 0 then err (failure label) else ok (tt, db)

-- A query, and how its result is read.
unfoldable pub query : {A : Type 0} → Faults → String → (Db → A) → Tx A
query down label read db = if down label 0 then err (failure label) else ok (read db, db)

-- A statement that writes: the number of rows that it affects and the new tables. `refused` is the
-- error where the tables would break a constraint.
unfoldable pub exec_or : Error → Faults → ℕ → String → (Db → ℕ × Db) → Tx ℕ
exec_or refused down round label change db =
    if down label round
    then err (failure label)
    else if not (constraints (change db).1)
    then err refused
    else ok (change db)

abbrev pub exec_at : Faults → ℕ → String → (Db → ℕ × Db) → Tx ℕ
exec_at down round label = exec_or (failure label) down round label

abbrev pub exec : Faults → String → (Db → ℕ × Db) → Tx ℕ
exec down = exec_at down 0

-- `if err := …; err != nil { return fmt.Errorf("…: %w", err) }`
unfoldable pub labelled : {A : Type 0} → String → Tx A → Tx A
labelled s m db = wrapped s (m db)

-- A step that does not touch the database.
unfoldable pub from_result : {A : Type 0} → Result A → Tx A
from_result (err e) db = err e
from_result (ok a) db = ok (a, db)

settle : {A : Type 0} → Db → Result (Result A × Db) → Result A × Db
settle db (err e) = (err e, db)
settle db (ok (r, db')) = (r, db')

-- A call on the pool: what the body commits with its result, or an error and nothing.
-- The body's result may itself be an error, which the code returns after a commit.
unfoldable pub run : {A : Type 0} → Tx (Result A) → Op A
unfolding settle
run body db = settle db (body db)

after_result : {A B : Type 0} → Result A × Db → (A → Op B) → Result B × Db
after_result (err e, db) f = (err e, db)
after_result (ok a, db) f = f a db

-- One call on the pool after another: what the first left stays, whatever the second returns.
unfoldable pub and_then : {A B : Type 0} → Op A → (A → Op B) → Op B
unfolding after_result
and_then m f db = after_result (m db) f

-- Transactor.WithinTransaction: commits only when the work succeeds.
unfoldable pub within_transaction : {A : Type 0} → Faults → Tx A → Op A
within_transaction down work =
    run
      do control down "begin transaction"; a ← work; control down "commit transaction"; pure (ok a)

-- As `labelled`, for a call on the pool: what it left stays.
unfoldable pub labelled_call : {A : Type 0} → String → Op A → Op A
labelled_call s m db = (wrapped s (m db).0, (m db).1)

after_error : {A : Type 0} → (Error → Error) → Result A × Db → Result A × Db
after_error f (ok a, db) = (ok a, db)
after_error f (err e, db) = (err (f e), db)

-- `if err != nil { … return f(err) }`
unfoldable pub on_error : {A : Type 0} → (Error → Error) → Op A → Op A
unfolding after_error
on_error f m db = after_error f (m db)

-- A call that returns an error, and one that hands on a result.
abbrev pub refuse : {A : Type 0} → Error → Op A
refuse e = run (fail e)

abbrev pub lift : {A : Type 0} → Result A → Op A
lift r = run (pure r)
