-- ===== src/Examples/Lifecycle.antt =====
-- Runs of the tenants' lifecycle.
use modura.Prelude.{
  ℕ, String, false, ◌≡◌, ◌≢◌, refl, some, find, update_where, count_where, unique, ◌==◌,
}
use modura.Text.{trim_space}
use modura.Errors.{PlatformTenantError, platformtenant, wrap, Result, ok, err}
use modura.Database.{TenantStatus, User, Db}
use modura.Database.Constraints.{constraints}
use modura.Database.Tx.{
  Faults, run, control, query, exec_or, ◌>>=◌, pure, fail, and_then, labelled_call,
}
use modura.Identity.Types.{Session}
use modura.Identity.Sessions.{validate_session}
use modura.Identity.AccountRows.{matches_login}
use modura.PlatformAdmin.{PlatformActor}
use modura.Tenancy.{LifecycleChange, change_status, suspend}
use modura.Tenancy.Suspension.{suspend_shuts_out}
use modura.Examples.{up, sample}

abbrev operator : PlatformActor
operator = record { administrator_id = "root"; session_id = "p1" }

abbrev event_id : ℕ → Result String
event_id at = ok "e1"

abbrev suspended : Db
suspended = (suspend up event_id 50 operator "t1" " unpaid" "c1" sample).1

suspending : suspend up event_id 50 operator "t1" " unpaid" "c1" sample ≡ (ok tt, suspended)
unfolding suspend change_status trim_space run control query exec_or ◌>>=◌ pure fail and_then
    labelled_call update_where count_where constraints unique
suspending = refl

suspended_twice :
    (suspend up event_id 60 operator "t1" "unpaid" "c1" suspended).0
    ≡ err (wrap "change tenant status" (platformtenant PlatformTenantError.invalid_transition))
unfolding suspend change_status trim_space run control query exec_or ◌>>=◌ pure fail and_then
    labelled_call update_where count_where constraints unique
suspended_twice = refl

suspend_shuts_out_example :
    ((x : Session) (t : ℕ) (down' : Faults) (db'' : Db)
      → x.tenant_id ≡ "t1"
      → validate_session down' x t suspended ≢ (ok tt, db''))
    × ((slug login : String) (u : User)
        → find (matches_login slug login suspended) suspended.users ≡ some u
        → (u.tenant_id == "t1") ≡ false)
suspend_shuts_out_example =
    suspend_shuts_out up event_id 50 operator "t1" " unpaid" "c1" sample suspending

abbrev change : LifecycleChange
change = record {
  actor = operator;
  tenant_id = "t1";
  reason = "unpaid";
  correlation_id = "c1";
  audit_id = "e1";
  occurred_at = 50;
}

abbrev changed : Db
changed = (change_status up change TenantStatus.active TenantStatus.suspended sample).1

changing :
    change_status up change TenantStatus.active TenantStatus.suspended sample ≡ (ok tt, changed)
unfolding change_status run control query exec_or ◌>>=◌ pure fail update_where count_where
    constraints unique
changing = refl
