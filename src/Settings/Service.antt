-- ===== src/Settings/Service.antt =====
-- backend/internal/modules/settings/service.go: validated writes, each with its audit event in one unit
-- of work. `marshal` is json.Marshal for the states of the events.
pub mod Writes
pub mod Typed
use Prim.Native.String.{len}
use modura.Prelude.{
  ℕ, suc, String, Char, Bool, not, ◌&&◌, ◌||◌, ◌==◌, Option, none, some, List, [], ◌∷◌, blank,
  length, ltb, nat_eq, contains, if◌then◌else◌,
}
use modura.Errors.{message, Result, ok, err, wrapped}
use modura.Text.{trim_space, map_runes}
use modura.Database.{DictionaryType, DictionaryItemRow, ConfigurationDefinition}
use modura.Database.Tx.{
  Faults, Tx, Op, pure, refuse, lift, labelled_call, from_result, within_transaction, and_then,
  ◌>>=◌, ◌>>◌,
}
use modura.Identity.Types.{Actor}
use modura.PlatformAdmin.{PlatformActor}
use modura.Audit
use modura.Audit.Redaction.{Json}
use modura.Settings.Types.{
  DictionaryItem, Dictionary, Configuration, WriteContext, PlatformWriteContext, DictionaryWrite,
  ConfigurationWrite, GlobalConfigurationWrite,
}
use modura.Settings.Values.{stable_code, valid_value_type}
use modura.Settings.Dictionaries
use modura.Settings.Configurations

pub record SettingsMarshal : Type 0 where
  pub null : Result String
  pub dictionary : Dictionary → Result String
  pub configuration : Configuration → Result String

-- The orders of the ORDER BY clauses.
pub record SettingsOrders : Type 0 where
  pub types : DictionaryType → DictionaryType → Bool
  pub items : DictionaryItemRow → DictionaryItemRow → Bool
  pub definitions : ConfigurationDefinition → ConfigurationDefinition → Bool

unfoldable pub valid_actor : Actor → Bool
valid_actor a = not (blank a.tenant_id) && not (blank a.user_id) && not (blank a.session_id)

unfoldable pub valid_write : WriteContext → Bool
unfolding valid_actor
valid_write w = valid_actor w.actor && not (blank (trim_space w.correlation_id))

unfoldable pub valid_platform_actor : PlatformActor → Bool
valid_platform_actor a = not (blank a.administrator_id) && not (blank a.session_id)

unfoldable pub valid_platform_write : PlatformWriteContext → Bool
unfolding valid_platform_actor
valid_platform_write w =
    valid_platform_actor w.actor
    && not (blank (trim_space w.reason))
    && not (ltb 500 (len (trim_space w.reason)))
    && not (blank (trim_space w.correlation_id))

abbrev pub tenant_event :
    WriteContext → ℕ → String → String → String → String → String → Audit.Event
tenant_event w now action resource id before_json after_json = record {
  actor_id = w.actor.user_id;
  tenant_id = w.actor.tenant_id;
  action = action;
  resource = resource;
  resource_id = id;
  reason = "authorized tenant settings request";
  correlation_id = w.correlation_id;
  occurred_at = some now;
  before_state = before_json;
  after_state = after_json;
}

abbrev pub platform_event :
    PlatformWriteContext → ℕ → String → String → String → String → String → Audit.PlatformEvent
platform_event w now action resource id before_json after_json = record {
  actor_id = w.actor.administrator_id;
  action = action;
  resource = resource;
  resource_id = id;
  reason = w.reason;
  correlation_id = w.correlation_id;
  occurred_at = some now;
  before_state = before_json;
  after_state = after_json;
}

-- strings.ToLower(strings.TrimSpace(s)), with lower = unicode.ToLower.
abbrev pub normalized : (Char → Char) → String → String
normalized lower s = map_runes lower (trim_space s)

abbrev bad_item : String → String → Bool
bad_item code label = not (stable_code code) || blank label || ltb 128 (len label)

module _ (lower : Char → Char) (new_id : ℕ → ℕ → Result String) (now : ℕ) where
  abbrev with_id : DictionaryItem → String → DictionaryItem
  with_id i id = record i { id = id; code = normalized lower i.code; label = trim_space i.label }

  after_id :
      DictionaryItem → Result String → Result (List DictionaryItem) → Result (List DictionaryItem)
  after_id i (err e) rest = err e
  after_id i (ok id) (err e) = err e
  after_id i (ok id) (ok rest) = ok (with_id i id ∷ rest)

  -- The loop over the items, with the codes seen before; item number k takes the identifier k + 1.
  unfoldable pub check_items : List String → ℕ → List DictionaryItem → Result (List DictionaryItem)
  unfolding after_id
  check_items seen k [] = ok []
  check_items seen k (i ∷ is) =
      let rest = check_items (normalized lower i.code ∷ seen) (suc k) is in
      if bad_item (normalized lower i.code) (trim_space i.label)
      then err (message "invalid dictionary item")
      else if contains (normalized lower i.code) seen
      then err (message "duplicate dictionary item")
      else after_id i (wrapped "generate dictionary item ID" (new_id (suc k) now)) rest

module _ (lower : Char → Char) (marshal : SettingsMarshal) (jsonb : String → String)
    (decode : String → Option Json) (valid_json : String → Bool) (new_event_id : ℕ → Result String)
    (new_id : ℕ → ℕ → Result String) (down : Faults) (orders : SettingsOrders) (now : ℕ) where
  -- audit
  unfoldable pub audit :
      WriteContext → String → String → String → Result String → Result String → Tx (Unit {0})
  audit w action resource id before after = do
    before_json ← from_result before
    after_json ← from_result after
    Audit.record_tenant_write valid_json new_event_id down
        (tenant_event w now action resource id before_json after_json)

  -- auditPlatform
  unfoldable pub audit_platform :
      PlatformWriteContext
      → String
      → String
      → String
      → Result String
      → Result String
      → Tx (Unit {0})
  audit_platform w action resource id before after = do
    before_json ← from_result before
    after_json ← from_result after
    Audit.record_platform_write valid_json new_event_id down
        (platform_event w now action resource id before_json after_json)

  unfoldable pub list_dictionaries : Actor → Op (List Dictionary)
  list_dictionaries actor =
      if not (valid_actor actor)
      then refuse (message "invalid settings actor")
      else Dictionaries.list_effective_dictionaries orders.items down orders.types actor.tenant_id

  unfoldable pub list_global_dictionaries : PlatformActor → Op (List Dictionary)
  list_global_dictionaries actor =
      if not (valid_platform_actor actor)
      then refuse (message "invalid platform settings actor")
      else Dictionaries.list_global_dictionaries orders.items down orders.types

  abbrev dictionary_write :
      Option String → String → String → ℕ → String → List DictionaryItem → DictionaryWrite
  dictionary_write owner code name expected id items = record {
    owner = owner;
    id = id;
    code = code;
    name = name;
    expected_version = expected;
    items = items;
    occurred_at = now;
  }

  abbrev bad_dictionary : String → String → List DictionaryItem → Bool
  bad_dictionary code name items =
      not (stable_code code) || blank name || ltb 128 (len name) || ltb 500 (length items)

  -- The unit of work: the store's replacement and its event.
  unfoldable pub replacing :
      DictionaryWrite → (String → Result String → Result String → Tx (Unit {0})) → Tx Dictionary
  replacing desired record_change = do
    done ← Dictionaries.replace_dictionary orders.items down desired
    record_change done.1.id (marshal.dictionary done.0) (marshal.dictionary done.1)
    pure done.1

  -- ReplaceDictionary
  unfoldable pub replace_dictionary :
      WriteContext → String → String → ℕ → List DictionaryItem → Op Dictionary
  unfolding replacing
  replace_dictionary w code name expected items =
      if not (valid_write w) || bad_dictionary (normalized lower code) (trim_space name) items
      then refuse (message "invalid dictionary")
      else and_then (labelled_call "generate dictionary ID" (lift (new_id 0 now))) λ id.
        and_then (lift (check_items lower new_id now [] 0 items)) λ checked.
          labelled_call "replace dictionary" (
            within_transaction down (
              replacing
                (dictionary_write (some w.actor.tenant_id) (normalized lower code) (trim_space name)
                  expected id checked)
                (audit w "settings.dictionary.replaced" "dictionary")))

  -- ReplaceGlobalDictionary
  unfoldable pub replace_global_dictionary :
      PlatformWriteContext → String → String → ℕ → List DictionaryItem → Op Dictionary
  unfolding replacing
  replace_global_dictionary w code name expected items =
      if not (valid_platform_write w)
        || bad_dictionary (normalized lower code) (trim_space name) items
      then refuse (message "invalid global dictionary")
      else and_then (labelled_call "generate dictionary ID" (lift (new_id 0 now))) λ id.
        and_then (lift (check_items lower new_id now [] 0 items)) λ checked.
          labelled_call "replace global dictionary" (
            within_transaction down (
              replacing
                (dictionary_write none (normalized lower code) (trim_space name) expected id
                  checked)
                (audit_platform w "settings.global_dictionary.replaced" "global_dictionary")))

  -- DeleteDictionary
  unfoldable pub delete_dictionary : WriteContext → String → ℕ → Op (Unit {0})
  delete_dictionary w code expected =
      if not (valid_write w) || not (stable_code (normalized lower code)) || nat_eq expected 0
      then refuse (message "invalid dictionary delete")
      else within_transaction down (do
        before ←
            Dictionaries.delete_tenant_dictionary orders.items down w.actor.tenant_id
              (normalized lower code) expected
        audit w "settings.dictionary.deleted" "dictionary" before.id (marshal.dictionary before)
            marshal.null)

  unfoldable pub list_configurations : Actor → Op (List Configuration)
  list_configurations actor =
      if not (valid_actor actor)
      then refuse (message "invalid settings actor")
      else Configurations.list_effective_configurations jsonb decode down orders.definitions
          actor.tenant_id

  unfoldable pub list_global_configurations : PlatformActor → Op (List Configuration)
  list_global_configurations actor =
      if not (valid_platform_actor actor)
      then refuse (message "invalid platform settings actor")
      else Configurations.list_global_configurations jsonb decode down orders.definitions

  overriding : WriteContext → ConfigurationWrite → Tx Configuration
  overriding w desired = do
    done ← Configurations.put_tenant_configuration jsonb decode down orders.definitions desired
    audit w "settings.configuration.updated" "configuration" done.1.id
        (marshal.configuration done.0) (marshal.configuration done.1)
    pure done.1

  -- PutConfiguration
  unfoldable pub put_configuration : WriteContext → String → ℕ → String → Op Configuration
  unfolding overriding
  put_configuration w key expected value =
      if not (valid_write w)
        || not (stable_code (normalized lower key))
        || not (valid_json value)
        || ltb 65536 (len value)
      then refuse (message "invalid configuration")
      else labelled_call "put configuration" (
          within_transaction down (
            overriding w (record {
              tenant_id = w.actor.tenant_id;
              key = normalized lower key;
              expected_version = expected;
              value = value;
              occurred_at = now;
            })))

  abbrev is_value_type : String → Bool
  is_value_type s = s == "string" || s == "boolean" || s == "integer" || s == "json"

  defining : PlatformWriteContext → GlobalConfigurationWrite → Tx Configuration
  defining w desired = do
    done ← Configurations.put_global_configuration jsonb decode down orders.definitions desired
    audit_platform w "settings.global_configuration.updated" "global_configuration" done.1.id
        (marshal.configuration done.0) (marshal.configuration done.1)
    pure done.1

  -- PutGlobalConfiguration
  unfoldable pub put_global_configuration :
      PlatformWriteContext → String → String → String → Bool → ℕ → String → Op Configuration
  unfolding defining
  put_global_configuration w key name value_type overridable expected value =
      if not (valid_platform_write w)
        || not (stable_code (normalized lower key))
        || blank (trim_space name)
        || ltb 128 (len (trim_space name))
        || not (is_value_type (normalized lower value_type))
        || not (valid_json value)
        || ltb 65536 (len value)
        || not (valid_value_type decode (normalized lower value_type) value)
      then refuse (message "invalid global configuration")
      else and_then (labelled_call "generate configuration ID" (lift (new_id 0 now))) λ id.
        labelled_call "put global configuration" (
          within_transaction down (
            defining w (record {
              id = id;
              key = normalized lower key;
              name = trim_space name;
              value_type = normalized lower value_type;
              tenant_overridable = overridable;
              expected_version = expected;
              value = value;
              occurred_at = now;
            })))
