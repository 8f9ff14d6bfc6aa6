-- ===== src/Transport/Audit.antt =====
-- backend/internal/modules/audit/transport/http/handler.go. `is_uuid` is whether uuid.Parse reads a text,
-- `decodes` whether json.Unmarshal reads one; the content of a response is the records of the page.
use modura.Prelude.{
  ℤ, pos, String, Bool, ◌&&◌, ◌||◌, Option, none, some, List, all, blank, if◌then◌else◌,
}
use modura.Errors.{Result, ok, err}
use modura.Database.Tx.{Op}
use modura.Identity.Types.{Actor}
use modura.Authorization.Types.{Permission}
use modura.Audit.Listing.{Record}
use modura.Transport.{Request, Handler, answer, attempt, json, Security}
use modura.Transport.Identity.{IdentityService}
use modura.Transport.Permissions.{permission, internal, bad_request, with_permission}

pub record ListAuditEventsParams : Type 0 where
  pub action : Option String
  pub resource : Option String
  pub limit : Option ℤ
  pub offset : Option ℤ

abbrev or_default : {A : Type 0} → A → Option A → A
or_default a none = a
or_default a (some b) = b

module _ (users : IdentityService) (security : Security)
    (authorize : Actor → Permission → Op (Unit {0}))
    (list : String → String → String → ℤ → ℤ → Op (List Record))
    (is_uuid decodes : String → Bool) where
  abbrev is_uuid_of : Option String → Bool
  is_uuid_of none = is_uuid ""
  is_uuid_of (some t) = is_uuid t

  abbrev state_readable : String → Bool
  state_readable state = blank state || decodes state

  -- auditResponse: whether the record can be read.
  unfoldable pub readable_event : Record → Bool
  readable_event e =
      is_uuid e.id
      && is_uuid e.actor_id
      && is_uuid_of e.tenant_id
      && is_uuid e.resource_id
      && state_readable e.before_state
      && state_readable e.after_state

  events_listed : Result (List Record) → Handler (List Record)
  unfolding readable_event
  events_listed (ok es) = answer (if all readable_event es then json 200 es else internal)
  events_listed (err e) = answer bad_request

  -- ListAuditEvents
  unfoldable pub list_audit_events : Request → ListAuditEventsParams → Handler (List Record)
  unfolding with_permission events_listed
  list_audit_events r q =
      with_permission users security authorize r (permission "audit.events" "read") λ actor.
        attempt
          (list actor.tenant_id (or_default "" q.action) (or_default "" q.resource)
            (or_default (pos 50) q.limit) (or_default (pos 0) q.offset))
          events_listed
