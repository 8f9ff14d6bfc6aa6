-- ===== src/Tenancy.antt =====
-- backend/internal/modules/platformtenant: the tenants as a platform administrator sees them, and
-- their lifecycle (service.go and postgres/store.go).
pub mod Suspension
use modura.Prelude.{
  ℕ, zero, suc, String, Bool, true, false, ◌&&◌, ◌||◌, ◌++◌, ◌==◌, Option, none, some, List, ◌∷◌,
  blank, any, insertion_sort, nat_eq, ltb, if◌then◌else◌, count_where, update_where,
}
use modura.Errors.{
  Error, PlatformTenantError, platformtenant, PlatformAdminError, platformadmin, message, Result,
  ok, err,
}
use modura.Text.{trim_space, text_le}
use modura.Database.{Tenant, TenantStatus, ActorType, AuditEvent, Db}
use modura.PlatformAdmin.{PlatformActor}
use modura.Database.Tx.{
  Faults, Tx, Op, pure, fail, control, query, exec, run, refuse, lift, labelled_call, and_then,
  ◌>>=◌, ◌>>◌,
}

pub record LifecycleChange : Type 0 where
  pub actor : PlatformActor
  pub tenant_id : String
  pub reason : String
  pub correlation_id : String
  pub audit_id : String
  pub occurred_at : ℕ

abbrev pub same_status : TenantStatus → TenantStatus → Bool
same_status TenantStatus.provisioning TenantStatus.provisioning = true
same_status TenantStatus.active TenantStatus.active = true
same_status TenantStatus.suspended TenantStatus.suspended = true
same_status _ _ = false

-- "tenant." + to
abbrev action_to : TenantStatus → String
action_to TenantStatus.provisioning = "tenant.provisioning"
action_to TenantStatus.active = "tenant.active"
action_to TenantStatus.suspended = "tenant.suspended"

-- ORDER BY created_at, id
abbrev older : Tenant → Tenant → Bool
older a b = ltb a.created_at b.created_at || (nat_eq a.created_at b.created_at && text_le a.id b.id)

-- id = $1 AND status = $2
abbrev pub is_in_status : String → TenantStatus → Tenant → Bool
is_in_status id from t = t.id == id && same_status t.status from

abbrev pub with_status : TenantStatus → ℕ → Tenant → Tenant
with_status to now t = record t { status = to; updated_at = now }

abbrev pub lifecycle_event : LifecycleChange → TenantStatus → AuditEvent
lifecycle_event c to = record {
  id = c.audit_id;
  actor_type = ActorType.platform_administrator;
  actor_id = c.actor.administrator_id;
  tenant_id = some c.tenant_id;
  action = action_to to;
  resource = "tenant";
  resource_id = c.tenant_id;
  reason = c.reason;
  correlation_id = c.correlation_id;
  occurred_at = c.occurred_at;
  before_state = none;
  after_state = none;
}

module _ (down : Faults) where
  unfoldable pub list_tenants : Op (List Tenant)
  list_tenants =
      run
        do rows ← query down "list tenants" (λ db. insertion_sort older db.tenants); pure (ok rows)

  -- The rows affected: one, or the reason why not.
  one_changed : LifecycleChange → ℕ → Tx (Unit {0})
  one_changed c n = if nat_eq n 1 then pure tt else (do
    exists ← query down "read tenant lifecycle" (λ db. any (λ t. t.id == c.tenant_id) db.tenants)
    if exists
        then fail (platformtenant PlatformTenantError.invalid_transition)
        else fail (platformtenant PlatformTenantError.not_found))

  unfoldable pub change_status : LifecycleChange → TenantStatus → TenantStatus → Op (Unit {0})
  unfolding one_changed
  change_status c from to = run do
    control down "begin tenant lifecycle change"
    n ← exec down "update tenant lifecycle" (λ db. (
      count_where (is_in_status c.tenant_id from) db.tenants,
      record db {
        tenants =
            update_where (is_in_status c.tenant_id from) (with_status to c.occurred_at) db.tenants;
      },
    ))
    one_changed c n
    exec down "record tenant lifecycle audit"
        (λ db. (1, record db { audit_events = lifecycle_event c to ∷ db.audit_events }))
    control down "commit tenant lifecycle change"
    pure (ok tt)

  -- Service.List
  unfoldable pub list_for : PlatformActor → Op (List Tenant)
  list_for actor =
      if blank actor.administrator_id || blank actor.session_id
      then refuse (platformadmin PlatformAdminError.invalid_token)
      else list_tenants

  module _ (new_id : ℕ → Result String) (now : ℕ) where
    -- Service.changeStatus
    request_status :
        PlatformActor → String → String → String → TenantStatus → TenantStatus → Op (Unit {0})
    request_status actor tenant reason correlation from to =
        if blank actor.administrator_id
          || blank actor.session_id
          || blank tenant
          || blank (trim_space reason)
          || blank (trim_space correlation)
        then refuse (message "invalid platform tenant lifecycle request")
        else and_then (labelled_call "generate audit event ID" (lift (new_id now))) λ id.
          labelled_call "change tenant status" (
            change_status
              (record {
                actor = actor;
                tenant_id = tenant;
                reason = trim_space reason;
                correlation_id = trim_space correlation;
                audit_id = id;
                occurred_at = now;
              })
              from to)

    unfoldable pub suspend : PlatformActor → String → String → String → Op (Unit {0})
    unfolding request_status
    suspend actor tenant reason correlation =
        request_status actor tenant reason correlation TenantStatus.active TenantStatus.suspended

    unfoldable pub reactivate : PlatformActor → String → String → String → Op (Unit {0})
    unfolding request_status
    reactivate actor tenant reason correlation =
        request_status actor tenant reason correlation TenantStatus.suspended TenantStatus.active
