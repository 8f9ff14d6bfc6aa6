-- ===== src/Examples/Auditing.antt =====
-- Runs of the redaction and the listing of audit events.
use modura.Prelude.{
  ℕ, ◌≤◌, pos, String, Char, true, false, not, Option, none, some, List, [], ◌∷◌, ◌≡◌, refl, any,
  filter, insertion_sort, blank, length,
}
use modura.Text.{trim_space, text_le}
use modura.Errors.{ok}
use modura.Database.{ActorType, AuditEvent, Db}
use modura.Database.Tx.{run, query, ◌>>=◌, pure, fail, labelled_call}
use modura.Audit.Redaction.{
  Json, null, number, object, end, entry, text, redact_value, redact_state, exposes,
  redact_value_hides,
}
use modura.Audit.Listing.{
  Record, matches, to_nat, bytes, audit_page, take, drop, record_of, list_events, list_events_page,
}
use modura.Examples.{up, sample}

abbrev same_rune : Char → Char
same_rune c = c

abbrev state : Json
state =
    object
      (entry "name" (text "x") (entry "password_hash" (object (entry "a" (number "1") end)) end))

redact_value_hides_example :
    (exposes same_rune (redact_value same_rune state) ≡ false)
    × (exposes same_rune state ≡ false → redact_value same_rune state ≡ state)
redact_value_hides_example = redact_value_hides same_rune state

abbrev parsed : String → Option Json
parsed s = some null

abbrev printed : Json → Option String
printed v = some "null"

abbrev event : String → String → ℕ → AuditEvent
event id t at = record {
  id = id;
  actor_type = ActorType.tenant_user;
  actor_id = "u1";
  tenant_id = some t;
  action = "a";
  resource = "role";
  resource_id = "r";
  reason = "why";
  correlation_id = "c";
  occurred_at = at;
  before_state = none;
  after_state = none;
}

abbrev with_events : Db
with_events = record sample {
  audit_events = event "e1" "t1" 5 ∷ event "e2" "t2" 6 ∷ event "e3" "t1" 7 ∷ event "e4" "t1" 8 ∷ [];
}

abbrev view : AuditEvent → Record
view e = record {
  id = e.id;
  actor_type = e.actor_type;
  actor_id = e.actor_id;
  tenant_id = e.tenant_id;
  action = e.action;
  resource = e.resource;
  resource_id = e.resource_id;
  reason = e.reason;
  correlation_id = e.correlation_id;
  occurred_at = e.occurred_at;
  before_state = "";
  after_state = "";
}

abbrev page : List Record
page = view (event "e3" "t1" 7) ∷ view (event "e1" "t1" 5) ∷ []

listing :
    list_events same_rune parsed printed up true "t1" "" " role" (pos 2) (pos 1) with_events
    ≡ (ok page, with_events)
unfolding list_events bytes audit_page take drop record_of trim_space text_le redact_state run query
    ◌>>=◌ pure fail labelled_call filter insertion_sort
listing = refl

list_events_page_example :
    (blank "t1" ≡ false)
    × (any (λ r. not (matches r.tenant_id "t1")) page ≡ false)
    × (length page ≤ to_nat (pos 2))
    × (to_nat (pos 2) ≤ 100)
list_events_page_example =
    list_events_page same_rune parsed printed up true "t1" "" " role" (pos 2) (pos 1) with_events
      listing
