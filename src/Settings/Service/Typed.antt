-- ===== src/Settings/Service/Typed.antt =====
-- The writes of configurations by the settings service, one after another: `PutConfiguration` and
-- `PutGlobalConfiguration`.
use Prim.Native.String.{len}
use modura.Prelude.{
  ℕ, String, Char, Bool, true, not, ◌||◌, ◌≡◌, subst, sym, ltb, blank, arith, Bool-cases, inl, inr,
  Option,
}
use modura.Errors.{Result, ok}
use modura.Text.{trim_space}
use modura.Database.{Db}
use modura.Database.Tx.{Faults, Op}
use modura.Database.Tx.Rules.{
  Ensures, ensures_pure, ensures_from_result, ensures_at, then_any, weaken,
}
use modura.Database.Tx.Runs.{labelled_call-ok}
use modura.Database.Tx.Atomic.{within_transaction-ensures}
use modura.Database.Tx.Calls.{refused-not_ok, drawn}
use modura.Audit.Redaction.{Json}
use modura.Audit.Writing.Platform.{IsPlatformRecorded, record_platform_write-ensures}
use modura.Settings.Types.{
  Configuration, WriteContext, PlatformWriteContext, ConfigurationWrite, GlobalConfigurationWrite,
}
use modura.Settings.Values.{stable_code, valid_value_type}
use modura.Settings.Configurations.Typing.{AllTyped}
use modura.Settings.Configurations.Typing.Global.{put_global_configuration-AllTyped}
use modura.Settings.Configurations.Typing.{put_tenant_configuration-AllTyped}
use modura.Settings.Service.{
  SettingsMarshal, SettingsOrders, valid_write, valid_platform_write, platform_event, normalized,
  audit_platform, overriding, defining, put_configuration, put_global_configuration, is_value_type,
}
use modura.Settings.Service.Writes.{audit-ensures}

-- What a call is served with: the clock, the generators and the faults of the driver.
pub record Round : Type 0 where
  pub new_event_id : ℕ → Result String
  pub new_id : ℕ → ℕ → Result String
  pub down : Faults
  pub now : ℕ

-- The arguments of a write.
pub data Write : Type 0 where
  overrides : WriteContext → (key : String) → (expected : ℕ) → (value : String) → Write
  defines :
      PlatformWriteContext
      → (key name value_type : String) → (overridable : Bool) → (expected : ℕ) → (value : String)
      → Write

module _ (lower : Char → Char) (marshal : SettingsMarshal) (jsonb : String → String)
    (decode : String → Option Json) (valid_json : String → Bool) (orders : SettingsOrders) where
  abbrev pub perform : Round → Write → Op Configuration
  perform r (overrides w key expected value) =
      put_configuration lower marshal jsonb decode valid_json r.new_event_id r.new_id r.down orders
        r.now w key expected value
  perform r (defines w key name value_type overridable expected value) =
      put_global_configuration lower marshal jsonb decode valid_json r.new_event_id r.new_id r.down
        orders r.now w key name value_type overridable expected value

  -- Writes that the service reports as done, from one database to another.
  pub data History (db : Db) : Db → Type 0 where
    start : History db db
    next :
        {db1 db2 : Db} {c : Configuration} (r : Round) (w : Write)
        → History db db1
        → perform r w db1 ≡ (ok c, db2)
        → History db db2

  module _
      (stored_type : (value_type value : String)
        → valid_value_type decode value_type value ≡ true
        → valid_value_type decode value_type (jsonb value) ≡ true)
      (r : Round) where
    audit_platform-ensures :
        (w : PlatformWriteContext) (action resource id : String) (before after : Result String)
        (db : Db)
        → Ensures
            (audit_platform lower marshal jsonb decode valid_json r.new_event_id r.new_id r.down
              orders r.now w action resource id before after)
            db
            (λ u db'.
              (b : String) × (a : String) × (before ≡ ok b)
              × (after ≡ ok a)
              × IsPlatformRecorded (platform_event w r.now action resource id b a) db db')
    unfolding audit_platform
    audit_platform-ensures w action resource id before after db =
        then_any _ _ (ensures_from_result before) λ b d1 (first, same1). ensures_at same1 (
          then_any _ _ (ensures_from_result after) λ a d2 (second, same2). ensures_at same2 (
            weaken
              (record_platform_write-ensures valid_json r.new_event_id r.down
                (platform_event w r.now action resource id b a) db)
              λ u d3 recorded. (b, a, first, second, recorded)))

    overriding-AllTyped :
        (w : WriteContext) (desired : ConfigurationWrite) (db : Db)
        → AllTyped decode db
        → Ensures
            (overriding lower marshal jsonb decode valid_json r.new_event_id r.new_id r.down orders
              r.now w desired)
            db
            (λ c db'. AllTyped decode db')
    unfolding overriding
    overriding-AllTyped w desired db typed =
        then_any _ _
          (put_tenant_configuration-AllTyped decode jsonb r.down orders.definitions stored_type db
            typed desired)
          λ done d1 kept.
            then_any _ _
              (audit-ensures lower marshal jsonb decode valid_json r.new_event_id r.new_id r.down
                orders r.now w _ _ _ _ _ d1)
              λ u d2 (b, a, first, second, recorded).
                ensures_pure _ (subst (AllTyped decode) (sym recorded.stored) kept)

    defining-AllTyped :
        (w : PlatformWriteContext) (desired : GlobalConfigurationWrite) (db : Db)
        → valid_value_type decode desired.value_type desired.value ≡ true
        → AllTyped decode db
        → Ensures
            (defining lower marshal jsonb decode valid_json r.new_event_id r.new_id r.down orders
              r.now w desired)
            db
            (λ c db'. AllTyped decode db')
    unfolding defining
    defining-AllTyped w desired db valid typed =
        then_any _ _
          (put_global_configuration-AllTyped decode jsonb r.down orders.definitions stored_type db
            typed desired valid)
          λ done d1 kept.
            then_any _ _ (audit_platform-ensures w _ _ _ _ _ d1)
              λ u d2 (b, a, first, second, recorded).
                ensures_pure _ (subst (AllTyped decode) (sym recorded.stored) kept)

    perform-AllTyped :
        (w : Write) (db : Db) {c : Configuration} {db' : Db}
        → AllTyped decode db
        → perform r w db ≡ (ok c, db')
        → AllTyped decode db'
    unfolding put_configuration put_global_configuration
    perform-AllTyped (overrides w key expected value) db typed h =
        elim (Bool-cases (
          not (valid_write w)
          || not (stable_code (normalized lower key))
          || not (valid_json value)
          || ltb 65536 (len value))) [
            | inl e ↦ absurd (refused-not_ok _ db (rw e at h))
            | inr e ↦
                within_transaction-ensures r.down _ db (overriding-AllTyped w _ db typed)
                  (labelled_call-ok _ _ db (rw e at h))
          ]
    perform-AllTyped (defines w key name value_type overridable expected value) db typed h =
        elim (Bool-cases (
          not (valid_platform_write w)
          || not (stable_code (normalized lower key))
          || blank (trim_space name)
          || ltb 128 (len (trim_space name))
          || not (
              is_value_type lower marshal jsonb decode valid_json r.new_event_id r.new_id r.down
                orders r.now (normalized lower value_type))
          || not (valid_json value)
          || ltb 65536 (len value)
          || not (valid_value_type decode (normalized lower value_type) value))) [
            | inl e ↦ absurd (refused-not_ok _ db (rw e at h))
            | inr e ↦ drawn _ _ _ db (rw e at h) λ id named rest.
                within_transaction-ensures r.down _ db
                  (defining-AllTyped w _ db (ground arith) typed) (labelled_call-ok _ _ db rest)
          ]

  -- Whatever writes of configurations the service reports as done, every stored value, a tenant's or
  -- the global one of a key, keeps having the type that its key is defined with, also where the type
  -- of a key changes; provided that the form in which PostgreSQL stores a value has its types.
  pub History-AllTyped :
      ((value_type value : String)
        → valid_value_type decode value_type value ≡ true
        → valid_value_type decode value_type (jsonb value) ≡ true)
      → {db db' : Db} → AllTyped decode db
      → History db db'
      → AllTyped decode db'
  History-AllTyped stored_type typed start = typed
  History-AllTyped stored_type typed (next {db1} r w before done) =
      perform-AllTyped stored_type r w db1 (History-AllTyped stored_type typed before) done
