-- ===== src/Organization/History.antt =====
-- The writes of the organization's store, one after another, by whatever tenants.
pub mod Isolation
pub mod Forests
use modura.Prelude.{ℕ, ℤ, String, Option, ◌≡◌}
use modura.Errors.{ok}
use modura.Database.{PositionStatus, Db}
use modura.Database.Tx.{Faults, Tx, within_transaction}
use modura.Organization.Types.{Department, Position, DataScope}
use modura.Organization.Departments.{
  create_department, update_department, move_department, delete_department,
}
use modura.Organization.Members.{
  create_position, update_position, assign_user, provision_initial_organization,
}

-- The arguments of an operation of the store that writes.
pub data Write : Type 0 where
  creates : Department → DataScope → Write
  updates : (t d name normalized : String) → ℤ → DataScope → ℕ → Write
  moves : (t d parent : String) → DataScope → ℕ → Write
  deletes : (t d : String) → DataScope → Write
  adds_position : Position → Write
  updates_position : (t id name normalized : String) → PositionStatus → ℕ → Write
  assigns : (t user d : String) → Option String → DataScope → ℕ → Write
  provisions : Department → (administrator : String) → Write

-- The tenant that the operation is for.
abbrev pub tenant_of : Write → String
tenant_of (creates d scope) = d.tenant_id
tenant_of (updates t d name normalized order scope now) = t
tenant_of (moves t d parent scope now) = t
tenant_of (deletes t d scope) = t
tenant_of (adds_position p) = p.tenant_id
tenant_of (updates_position t id name normalized status now) = t
tenant_of (assigns t user d position scope now) = t
tenant_of (provisions root administrator) = root.tenant_id

abbrev pub perform : Faults → ℕ → Write → Tx (Unit {0})
perform down fuel (creates d scope) = create_department down fuel d scope
perform down fuel (updates t d name normalized order scope now) =
    update_department down fuel t d name normalized order scope now
perform down fuel (moves t d parent scope now) = move_department down fuel t d parent scope now
perform down fuel (deletes t d scope) = delete_department down fuel t d scope
perform down fuel (adds_position p) = create_position down p
perform down fuel (updates_position t id name normalized status now) =
    update_position down t id name normalized status now
perform down fuel (assigns t user d position scope now) =
    assign_user down fuel t user d position scope now
perform down fuel (provisions root administrator) =
    provision_initial_organization down root administrator

-- Committed writes from one database to another, each with faults and fuel of its own. A write
-- that fails changes nothing, so it takes no step.
pub data History (db : Db) : Db → Type 0 where
  start : History db db
  next :
      {db1 db2 : Db} (down : Faults) (fuel : ℕ) (w : Write)
      → History db db1
      → within_transaction down (perform down fuel w) db1 ≡ (ok tt, db2)
      → History db db2
