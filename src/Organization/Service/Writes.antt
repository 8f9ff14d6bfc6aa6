-- ===== src/Organization/Service/Writes.antt =====
-- The writes of the organization service: the change and its audit event are one unit of work.
use modura.Prelude.{
  ℕ, String, Char, Bool, true, not, ◌||◌, ◌≡◌, ◌⊎◌, sym, subst, inl, inr, blank, Bool-cases, arith,
}
use modura.Errors.{Error, Result, ok, err}
use modura.Database.{Db}
use modura.Database.Tx.{Faults, Tx}
use modura.Database.Tx.Rules.{>>=-eq-ok, ensures_fail}
use modura.Database.Tx.Runs.{run-ensures}
use modura.Database.Tx.Atomic.{within_transaction_atomic}
use modura.Audit.Writing.{IsRecorded, record_tenant_write-ensures}
use modura.Organization.Types.{WriteContext}
use modura.Organization.Tree.Forest.{IsForest}
use modura.Organization.Departments
use modura.Organization.Departments.Moves.{move_department-keeps}
use modura.Organization.Service.{event_of, valid_write, write_audited, move_department}

module _ (lower : Char → Char) (valid_json : String → Bool) (new_event_id : ℕ → Result String)
    (down : Faults) (fuel now : ℕ) (w : WriteContext) (db : Db) where
  -- The change succeeded with `db1`, on which one audit event was added.
  abbrev pub HasEvidence : String → String → String → Tx (Unit {0}) → Db → Type 0
  HasEvidence action resource id change db' =
      (db1 : Db) × (change db ≡ ok (tt, db1))
      × IsRecorded (event_of w now action resource id) db1 db'

  -- A write is committed with the change and its audit event, or returns an error and leaves the
  -- database as it was: no change without evidence, and no evidence without a change.
  pub write_audited_atomic :
      (action resource id : String) (change : Tx (Unit {0})) (r : Result (Unit {0})) (db' : Db)
      → write_audited lower valid_json new_event_id down fuel now w action resource id change db
        ≡ (r, db')
      → ((r ≡ ok tt) × HasEvidence action resource id change db')
        ⊎ ((e : Error) × (r ≡ err e) × (db' ≡ db))
  unfolding write_audited
  write_audited_atomic action resource id change r db' done =
      elim (within_transaction_atomic down _ db r db' done) [
        | inl (u, whole, same) ↦
            let (v, db1, changed, recorded) = >>=-eq-ok change _ db whole in
            inl (
              same,
              (
                db1,
                changed,
                (record_tenant_write-ensures valid_json new_event_id down
                      (event_of w now action resource id) db1).holds
                    u db' recorded,
              ),
            )
        | inr rolled_back ↦ inr rolled_back
      ]

  write_audited-ok :
      (action resource id : String) (change : Tx (Unit {0})) (db' : Db)
      → write_audited lower valid_json new_event_id down fuel now w action resource id change db
        ≡ (ok tt, db')
      → HasEvidence action resource id change db'
  write_audited-ok action resource id change db' done =
      elim (write_audited_atomic action resource id change (ok tt) db' done) [
        | inl (done, audited) ↦ audited
        | inr (e, wrong, same) ↦ cc
      ]

  audited_move-IsForest :
      (d parent : String) (db' : Db)
      → IsForest w.actor.tenant_id db.departments
      → HasEvidence "organization.department.moved" "department" d
          (Departments.move_department down fuel w.actor.tenant_id d parent w.scope now)
          db'
      → IsForest w.actor.tenant_id db'.departments
  audited_move-IsForest d parent db' forest (db1, changed, recorded) =
      subst (λ x. IsForest w.actor.tenant_id x.departments) (sym recorded.stored)
        ((move_department-keeps down fuel w.actor.tenant_id d parent now w.scope db forest).holds tt
          db1 changed)

  -- A move that the service reports as done was asked for in a valid write context, changed what
  -- the store's move changes together with one audit event, and keeps the tenant's departments a
  -- forest.
  move_department_audited :
      (d parent : String) (db' : Db)
      → IsForest w.actor.tenant_id db.departments
      → move_department lower valid_json new_event_id down fuel now w d parent db ≡ (ok tt, db')
      → (valid_write w ≡ true)
        × HasEvidence "organization.department.moved" "department" d
            (Departments.move_department down fuel w.actor.tenant_id d parent w.scope now)
            db'
        × IsForest w.actor.tenant_id db'.departments
  unfolding move_department
  move_department_audited d parent db' forest done =
      elim (Bool-cases (not (valid_write w) || blank d || blank parent)) [
        | inl e ↦ absurd (run-ensures {P = λ r d. ⊥} (ensures_fail _) (rw e at done))
        | inr e ↦
            let audited =
              write_audited-ok "organization.department.moved" "department" d _ db'
                (rw e at done) in
            (ground arith, audited, audited_move-IsForest d parent db' forest audited)
      ]
