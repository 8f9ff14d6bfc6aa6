-- ===== src/Audit/Writing/Evidence.antt =====
-- The row that a write of a tenant's audit event adds, column by column.
use modura.Prelude.{ℕ, String, true, false, Option, none, some, ◌∷◌, ◌≡◌, refl, sym, ◌∙◌, blank}
use modura.Text.{trim_space}
use modura.Database.{ActorType, AuditEvent, Db}
use modura.Audit.{Event, event_row, trimmed_event, nullable_json}
use modura.Audit.Writing.{IsRecorded}

-- What is to be recorded of a write: who did it, in which tenant, what, to which resource, for which
-- request and when, with the encoded states before and after.
pub record Evidence : Type 0 where
  pub actor : String
  pub tenant : String
  pub action : String
  pub resource : String
  pub resource_id : String
  pub correlation : String
  pub at : ℕ
  pub before_state : String
  pub after_state : String

-- A column of a state: NULL for no text.
abbrev pub HoldsState : String → Option String → Type 0
HoldsState s column = (blank s ≡ false → column ≡ some s) × (blank s ≡ true → column ≡ none)

-- One row was added, with the evidence in its columns, and nothing else changed.
pub record IsEvidence (e : Evidence) (db db' : Db) : Type 0 where
  pub row : AuditEvent
  pub added : db' ≡ record db { audit_events = row ∷ db.audit_events }
  pub actor_type : row.actor_type ≡ ActorType.tenant_user
  pub actor : row.actor_id ≡ e.actor
  pub tenant : row.tenant_id ≡ some e.tenant
  pub action : row.action ≡ trim_space e.action
  pub resource : row.resource ≡ trim_space e.resource
  pub resource_id : row.resource_id ≡ trim_space e.resource_id
  pub correlation : row.correlation_id ≡ trim_space e.correlation
  pub at : row.occurred_at ≡ e.at
  pub before_state : HoldsState e.before_state row.before_state
  pub after_state : HoldsState e.after_state row.after_state

nullable_json-HoldsState : (s : String) → HoldsState s (nullable_json s)
nullable_json-HoldsState s = (λ h. rw h, λ h. rw h)

-- What was recorded of an event is evidence of what the event says.
pub recorded-IsEvidence :
    (e : Event) (now : ℕ) (db db' : Db)
    → e.occurred_at ≡ some now
    → IsRecorded e db db'
    → IsEvidence
        (record {
          actor = e.actor_id;
          tenant = e.tenant_id;
          action = e.action;
          resource = e.resource;
          resource_id = e.resource_id;
          correlation = e.correlation_id;
          at = now;
          before_state = e.before_state;
          after_state = e.after_state;
        })
        db
        db'
unfolding trimmed_event
recorded-IsEvidence e now db db' h k = record {
  row = event_row k.event_id (trimmed_event e) k.at;
  added = k.stored;
  actor_type = refl;
  actor = refl;
  tenant = refl;
  action = refl;
  resource = refl;
  resource_id = refl;
  correlation = refl;
  at = let same : some k.at ≡ some now = sym k.happened ∙ h in cc;
  before_state = nullable_json-HoldsState e.before_state;
  after_state = nullable_json-HoldsState e.after_state;
}
