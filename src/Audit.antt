-- ===== src/Audit.antt =====
-- backend/internal/modules/audit: service.go, types.go and postgres/store.go. A state is JSON text,
-- the empty text where there is none; `json.Valid` and the generator of identifiers are arguments.
-- An event's time is none where it is Go's zero time.
pub mod Writing
pub mod Redaction
pub mod Listing
use modura.Prelude.{
  ℕ, ◌+◌, String, Bool, true, false, not, ◌&&◌, ◌||◌, Option, none, some, ◌∷◌, ◌==◌, blank,
  if◌then◌else◌,
}
use modura.Errors.{Error, message, Result, ok, err}
use modura.Text.{trim_space}
use modura.Database.{ActorType, AuditEvent, Db}
use modura.Database.Tx.{Faults, Tx, pure, fail, exec, labelled, from_result, ◌>>=◌, ◌>>◌}

-- Evidence for a completed write of a tenant user.
pub record Event : Type 0 where
  pub actor_id : String
  pub tenant_id : String
  pub action : String
  pub resource : String
  pub resource_id : String
  pub reason : String
  pub correlation_id : String
  pub occurred_at : Option ℕ
  pub before_state : String
  pub after_state : String

-- Evidence for a completed write of a platform administrator, which has no tenant.
pub record PlatformEvent : Type 0 where
  pub actor_id : String
  pub action : String
  pub resource : String
  pub resource_id : String
  pub reason : String
  pub correlation_id : String
  pub occurred_at : Option ℕ
  pub before_state : String
  pub after_state : String

-- nullableJSON
abbrev pub nullable_json : String → Option String
nullable_json s = if blank s then none else some s

abbrev pub event_row : String → Event → ℕ → AuditEvent
event_row id e at = record {
  id = id;
  actor_type = ActorType.tenant_user;
  actor_id = e.actor_id;
  tenant_id = some e.tenant_id;
  action = e.action;
  resource = e.resource;
  resource_id = e.resource_id;
  reason = e.reason;
  correlation_id = e.correlation_id;
  occurred_at = at;
  before_state = nullable_json e.before_state;
  after_state = nullable_json e.after_state;
}

abbrev pub platform_event_row : String → PlatformEvent → ℕ → AuditEvent
platform_event_row id e at = record {
  id = id;
  actor_type = ActorType.platform_administrator;
  actor_id = e.actor_id;
  tenant_id = none;
  action = e.action;
  resource = e.resource;
  resource_id = e.resource_id;
  reason = e.reason;
  correlation_id = e.correlation_id;
  occurred_at = at;
  before_state = nullable_json e.before_state;
  after_state = nullable_json e.after_state;
}

abbrev pub insert_event : AuditEvent → Db → ℕ × Db
insert_event row db = (1, record db { audit_events = row ∷ db.audit_events })

unfoldable pub trimmed_event : Event → Event
trimmed_event e = record e {
  action = trim_space e.action;
  resource = trim_space e.resource;
  resource_id = trim_space e.resource_id;
  reason = trim_space e.reason;
  correlation_id = trim_space e.correlation_id;
}

unfoldable pub trimmed_platform_event : PlatformEvent → PlatformEvent
trimmed_platform_event e = record e {
  actor_id = trim_space e.actor_id;
  action = trim_space e.action;
  resource = trim_space e.resource;
  resource_id = trim_space e.resource_id;
  reason = trim_space e.reason;
  correlation_id = trim_space e.correlation_id;
}

-- The test of `RecordTenantWrite` on the texts, all but the time's.
unfoldable pub lacks_evidence : Event → Bool
lacks_evidence e =
    blank e.actor_id
    || blank e.tenant_id
    || blank e.action
    || blank e.resource
    || blank e.resource_id
    || blank e.reason
    || blank e.correlation_id

unfoldable pub lacks_platform_evidence : PlatformEvent → Bool
lacks_platform_evidence e =
    blank e.actor_id
    || blank e.action
    || blank e.resource
    || blank e.resource_id
    || blank e.reason
    || blank e.correlation_id

module _ (valid_json : String → Bool) (new_id : ℕ → Result String) (down : Faults) where
  abbrev bad_state : String → Bool
  bad_state s = not (blank s) && not (valid_json s)

  -- Store.Record
  unfoldable pub record_event : String → Event → ℕ → Tx (Unit {0})
  record_event id e at = do
    exec down "insert audit event" (insert_event (event_row id e at))
    pure tt

  -- Store.RecordPlatform
  unfoldable pub record_platform_event : String → PlatformEvent → ℕ → Tx (Unit {0})
  record_platform_event id e at = do
    exec down "insert platform audit event" (insert_event (platform_event_row id e at))
    pure tt

  record_trimmed : Event → Option ℕ → Tx (Unit {0})
  unfolding lacks_evidence record_event
  record_trimmed e none = fail (message "invalid tenant audit event")
  record_trimmed e (some at) =
      if lacks_evidence e
      then fail (message "invalid tenant audit event")
      else if bad_state e.before_state || bad_state e.after_state
      then fail (message "invalid tenant audit state")
      else (do
        id ← labelled "generate audit event ID" (from_result (new_id at))
        labelled "record tenant audit event" (record_event id e at))

  unfoldable pub record_tenant_write : Event → Tx (Unit {0})
  unfolding record_trimmed trimmed_event
  record_tenant_write event = record_trimmed (trimmed_event event) event.occurred_at

  record_platform_trimmed : PlatformEvent → Option ℕ → Tx (Unit {0})
  unfolding lacks_platform_evidence record_platform_event
  record_platform_trimmed e none = fail (message "invalid platform audit event")
  record_platform_trimmed e (some at) =
      if lacks_platform_evidence e
      then fail (message "invalid platform audit event")
      else if bad_state e.before_state || bad_state e.after_state
      then fail (message "invalid platform audit state")
      else (do
        id ← labelled "generate audit event ID" (from_result (new_id at))
        labelled "record platform audit event" (record_platform_event id e at))

  unfoldable pub record_platform_write : PlatformEvent → Tx (Unit {0})
  unfolding record_platform_trimmed trimmed_platform_event
  record_platform_write event =
      record_platform_trimmed (trimmed_platform_event event) event.occurred_at
