-- ===== src/Audit/Writing/Platform.antt =====
-- What the writes of the platform's audit events leave behind.
use modura.Prelude.{ℕ, String, Bool, false, ◌||◌, Option, none, some, ◌∷◌, ◌≡◌, refl}
use modura.Errors.{Result}
use modura.Database.{Db}
use modura.Database.Tx.{Faults}
use modura.Database.Tx.Rules.{
  Ensures, ensures_pure, ensures_fail, ensures_if, ensures_labelled, ensures_from_result, then_exec,
  then_any, ensures_at,
}
use modura.Audit.{
  PlatformEvent, trimmed_platform_event, platform_event_row, lacks_platform_evidence,
  record_platform_event, record_platform_trimmed, record_platform_write, bad_state,
}

-- One row of no tenant was added, for the trimmed event; the other tables are as they were.
pub record IsPlatformRecorded (e : PlatformEvent) (db db' : Db) : Type 0 where
  pub event_id : String
  pub at : ℕ
  pub happened : e.occurred_at ≡ some at
  pub evidence : lacks_platform_evidence (trimmed_platform_event e) ≡ false
  pub stored : db' ≡ record db {
    audit_events = platform_event_row event_id (trimmed_platform_event e) at ∷ db.audit_events;
  }

module _ (valid_json : String → Bool) (new_id : ℕ → Result String) (down : Faults)
    (e : PlatformEvent) (db : Db) where
  record_platform_trimmed-ensures :
      (o : Option ℕ)
      → e.occurred_at ≡ o
      → Ensures
          (record_platform_trimmed valid_json new_id down (trimmed_platform_event e) o)
          db
          (λ u db'. IsPlatformRecorded e db db')
  unfolding record_platform_trimmed record_platform_event
  record_platform_trimmed-ensures none h = ensures_fail _
  record_platform_trimmed-ensures (some at) h =
      ensures_if (lacks_platform_evidence (trimmed_platform_event e)) (λ _. ensures_fail _)
        λ evidence.
          ensures_if
            (bad_state valid_json new_id down (trimmed_platform_event e).before_state
              || bad_state valid_json new_id down (trimmed_platform_event e).after_state)
            (λ _. ensures_fail _)
            λ _.
              then_any _ _ (ensures_labelled _ _ (ensures_from_result (new_id at)))
                λ id d (_, same). ensures_at same (
                  ensures_labelled _ _ (
                    then_exec _ _ _ _ _ _ (
                      ensures_pure _ (record {
                        event_id = id;
                        at = at;
                        happened = h;
                        evidence = evidence;
                        stored = refl;
                      }))))

  pub record_platform_write-ensures :
      Ensures
        (record_platform_write valid_json new_id down e)
        db
        (λ u db'. IsPlatformRecorded e db db')
  unfolding record_platform_write
  record_platform_write-ensures = record_platform_trimmed-ensures e.occurred_at refl
