-- ===== src/Audit/Writing.antt =====
-- What the writes of audit events leave behind.
pub mod Platform
pub mod Evidence
use modura.Prelude.{ℕ, String, Bool, false, ◌||◌, Option, none, some, ◌∷◌, ◌≡◌, refl}
use modura.Errors.{Result}
use modura.Database.{Db}
use modura.Database.Tx.{Faults}
use modura.Database.Tx.Rules.{
  Ensures, ensures_pure, ensures_fail, ensures_if, ensures_labelled, ensures_from_result, then_exec,
  then_any, ensures_at,
}
use modura.Audit.{
  Event, trimmed_event, event_row, lacks_evidence, record_event, record_trimmed,
  record_tenant_write, bad_state,
}

-- One row was added, for the trimmed event, whose texts are not blank; the other tables are as they
-- were.
pub record IsRecorded (e : Event) (db db' : Db) : Type 0 where
  pub event_id : String
  pub at : ℕ
  pub happened : e.occurred_at ≡ some at
  pub evidence : lacks_evidence (trimmed_event e) ≡ false
  pub stored :
      db' ≡ record db { audit_events = event_row event_id (trimmed_event e) at ∷ db.audit_events }

module _ (valid_json : String → Bool) (new_id : ℕ → Result String) (down : Faults) (e : Event)
    (db : Db) where
  record_trimmed-ensures :
      (o : Option ℕ)
      → e.occurred_at ≡ o
      → Ensures
          (record_trimmed valid_json new_id down (trimmed_event e) o)
          db
          (λ u db'. IsRecorded e db db')
  unfolding record_trimmed record_event
  record_trimmed-ensures none h = ensures_fail _
  record_trimmed-ensures (some at) h =
      ensures_if (lacks_evidence (trimmed_event e)) (λ _. ensures_fail _)
        λ evidence.
          ensures_if
            (bad_state valid_json new_id down (trimmed_event e).before_state
              || bad_state valid_json new_id down (trimmed_event e).after_state)
            (λ _. ensures_fail _)
            λ _.
              then_any _ _ (ensures_labelled _ _ (ensures_from_result (new_id at)))
                λ id d (_, same). ensures_at same (
                  ensures_labelled _ _ (
                    then_exec _ _ _ _ _ _ (
                      ensures_pure _ (record {
                        event_id = id;
                        at = at;
                        happened = h;
                        evidence = evidence;
                        stored = refl;
                      }))))

  pub record_tenant_write-ensures :
      Ensures (record_tenant_write valid_json new_id down e) db (λ u db'. IsRecorded e db db')
  unfolding record_tenant_write
  record_tenant_write-ensures = record_trimmed-ensures e.occurred_at refl
