-- ===== src/Settings/Configurations.antt =====
-- Configurations in backend/internal/modules/settings/postgres/store.go. `definitions` is the order of
-- ORDER BY key, `jsonb` the text of a value as PostgreSQL stores it, and `decode` reads a JSON value.
-- The source reads the definition of a key without a lock when a tenant overrides it; transactions are
-- serial here, so that no change of the definition comes between that read and the write.
pub mod Overriding
pub mod Typing
use modura.Prelude.{
  ℕ, ◌+◌, String, Bool, true, false, not, ◌&&◌, Option, none, some, List, [], ◌∷◌, ◌==◌, nat_eq,
  any, find, insertion_sort, if◌then◌else◌, count_where, update_where,
}
use modura.Errors.{SettingsError, settings, message, ok}
use modura.Database.{ConfigurationDefinition, ConfigurationValue, Db}
use modura.Database.Constraints.{not_distinct}
use modura.Database.Tx.{Faults, Tx, Op, pure, fail, query, exec, run, ◌>>=◌, ◌>>◌}
use modura.Audit.Redaction.{Json}
use modura.Settings.Types.{Configuration, ConfigurationWrite, GlobalConfigurationWrite, source_of}
use modura.Settings.Values.{valid_value_type}
use modura.Settings.Dictionaries.{not_found, conflict}

-- settings.Configuration{Source: "global"}
abbrev pub no_global : Configuration
no_global = record {
  id = "";
  key = "";
  name = "";
  value_type = "";
  tenant_overridable = false;
  source = "global";
  version = 0;
  value = "";
}

-- A definition with a value from its owner.
abbrev pub configuration_view : ConfigurationDefinition → Option String → ℕ → String → Configuration
configuration_view d owner version value = record {
  id = d.id;
  key = d.key;
  name = d.name;
  value_type = d.value_type;
  tenant_overridable = d.tenant_overridable;
  source = source_of owner;
  version = version;
  value = value;
}

abbrev pub is_value_of : Option String → String → ConfigurationValue → Bool
is_value_of owner key v = not_distinct v.owner owner && v.key == key

abbrev pub value_row : Option String → String → String → ℕ → ConfigurationValue
value_row owner key value now = record {
  owner = owner;
  key = key;
  value = value;
  version = 1;
  created_at = now;
  updated_at = now;
}

abbrev pub definition_row : GlobalConfigurationWrite → ConfigurationDefinition
definition_row w = record {
  id = w.id;
  key = w.key;
  name = w.name;
  value_type = w.value_type;
  tenant_overridable = w.tenant_overridable;
  created_at = w.occurred_at;
  updated_at = w.occurred_at;
}

abbrev pub find_value : Option String → String → Db → Option ConfigurationValue
find_value owner key db = find (is_value_of owner key) db.configuration_values

-- JOIN global_configuration_values: no row without a global value. The keys that are joined are
-- unique, so a definition meets at most one value of an owner.
abbrev overridden :
    ConfigurationDefinition → ConfigurationValue → Option ConfigurationValue → Configuration
overridden d g none = configuration_view d none g.version g.value
overridden d g (some t) = configuration_view d t.owner t.version t.value

-- LEFT JOIN tenant_configuration_values … AND d.tenant_overridable
abbrev pub override_of : String → ConfigurationDefinition → Db → Option ConfigurationValue
override_of tenant d db = if d.tenant_overridable then find_value (some tenant) d.key db else none

joined_row :
    (ConfigurationValue → Configuration)
    → Option ConfigurationValue
    → List Configuration
    → List Configuration
joined_row row none rest = rest
joined_row row (some g) rest = row g ∷ rest

unfoldable pub effective_rows : String → Db → List ConfigurationDefinition → List Configuration
unfolding joined_row
effective_rows tenant db [] = []
effective_rows tenant db (d ∷ ds) =
    joined_row (λ g. overridden d g (override_of tenant d db)) (find_value none d.key db)
      (effective_rows tenant db ds)

unfoldable pub global_rows : Db → List ConfigurationDefinition → List Configuration
unfolding joined_row
global_rows db [] = []
global_rows db (d ∷ ds) =
    joined_row (λ g. overridden d g none) (find_value none d.key db) (global_rows db ds)

module _ (jsonb : String → String) (decode : String → Option Json) (down : Faults)
    (definitions : ConfigurationDefinition → ConfigurationDefinition → Bool) where
  unfoldable pub list_effective_configurations : String → Op (List Configuration)
  list_effective_configurations tenant = run do
    rows ←
        query down "query effective configurations"
          (λ db. effective_rows tenant db (insertion_sort definitions db.configuration_definitions))
    pure (ok rows)

  unfoldable pub list_global_configurations : Op (List Configuration)
  list_global_configurations = run do
    rows ←
        query down "query global configurations"
          (λ db. global_rows db (insertion_sort definitions db.configuration_definitions))
    pure (ok rows)

  abbrev global_after : GlobalConfigurationWrite → String → Configuration
  global_after w id = record {
    id = id;
    key = w.key;
    name = w.name;
    value_type = w.value_type;
    tenant_overridable = w.tenant_overridable;
    source = "global";
    version = w.expected_version + 1;
    value = w.value;
  }

  -- A change of type is refused while a tenant overrides the value.
  check_overrides : GlobalConfigurationWrite → Bool → Tx (Unit {0})
  check_overrides w true = pure tt
  check_overrides w false = do
    overrides ←
        query down "query configuration overrides" (λ db.
          any (λ v. not (not_distinct v.owner none) && v.key == w.key) db.configuration_values)
    if overrides then fail conflict else pure tt

  update_global : GlobalConfigurationWrite → Configuration → Tx (Configuration × Configuration)
  unfolding check_overrides
  update_global w before = do
    check_overrides w (before.value_type == w.value_type)
    exec down "update configuration definition" (λ db. (
      count_where (λ d. d.key == w.key) db.configuration_definitions,
      record db {
        configuration_definitions =
            update_where (λ d. d.key == w.key)
              (λ d. record d {
                name = w.name;
                value_type = w.value_type;
                tenant_overridable = w.tenant_overridable;
                updated_at = w.occurred_at;
              })
              db.configuration_definitions;
      },
    ))
    exec down "update global configuration value" (λ db. (
      count_where (is_value_of none w.key) db.configuration_values,
      record db {
        configuration_values =
            update_where (is_value_of none w.key)
              (λ v. record v {
                value = jsonb w.value;
                version = v.version + 1;
                updated_at = w.occurred_at;
              })
              db.configuration_values;
      },
    ))
    pure (before, global_after w before.id)

  put_found : GlobalConfigurationWrite → Option Configuration → Tx (Configuration × Configuration)
  unfolding update_global
  put_found w none = if not (nat_eq w.expected_version 0) then fail not_found else (do
    exec down "insert configuration definition" (λ db. (
      1,
      record db { configuration_definitions = definition_row w ∷ db.configuration_definitions },
    ))
    exec down "insert global configuration value" (λ db. (
      1,
      record db {
        configuration_values =
            value_row none w.key (jsonb w.value) w.occurred_at ∷ db.configuration_values;
      },
    ))
    pure (no_global, global_after w w.id))
  put_found w (some before) =
      if not (nat_eq before.version w.expected_version)
      then fail conflict
      else update_global w before

  -- The row of the join of a definition and its global value.
  abbrev joined_global :
      Option ConfigurationDefinition → Option ConfigurationValue → Option Configuration
  joined_global (some d) (some g) = some (configuration_view d none g.version g.value)
  joined_global _ _ = none

  unfoldable pub put_global_configuration :
      GlobalConfigurationWrite → Tx (Configuration × Configuration)
  unfolding put_found
  put_global_configuration w = do
    found ← query down "query global configuration" (λ db.
        joined_global (find (λ d. d.key == w.key) db.configuration_definitions)
          (find_value none w.key db))
    put_found w found

  abbrev pub tenant_view : ConfigurationDefinition → ℕ → String → Configuration
  tenant_view d version value = configuration_view d (some "") version value

  store_value :
      ConfigurationWrite → ConfigurationDefinition → Option ConfigurationValue → Tx Configuration
  store_value w d none = if not (nat_eq w.expected_version 0) then fail not_found else (do
    exec down "insert tenant configuration" (λ db. (
      1,
      record db {
        configuration_values =
            value_row (some w.tenant_id) w.key (jsonb w.value) w.occurred_at
            ∷ db.configuration_values;
      },
    ))
    pure (tenant_view d 0 ""))
  store_value w d (some before) =
      if not (nat_eq before.version w.expected_version) then fail conflict else (do
        exec down "update tenant configuration" (λ db. (
          count_where (is_value_of (some w.tenant_id) w.key) db.configuration_values,
          record db {
            configuration_values =
                update_where (is_value_of (some w.tenant_id) w.key)
                  (λ v. record v {
                    value = jsonb w.value;
                    version = v.version + 1;
                    updated_at = w.occurred_at;
                  })
                  db.configuration_values;
          },
        ))
        pure (tenant_view d before.version before.value))

  override_defined :
      ConfigurationWrite → Option ConfigurationDefinition → Tx (Configuration × Configuration)
  unfolding store_value
  override_defined w none = fail not_found
  override_defined w (some d) =
      if not d.tenant_overridable
      then fail (settings SettingsError.not_overridable)
      else if not (valid_value_type decode d.value_type w.value)
      then fail (message "configuration value type mismatch")
      else (do
        found ← query down "query tenant configuration" (find_value (some w.tenant_id) w.key)
        before ← store_value w d found
        pure (before, tenant_view d (w.expected_version + 1) w.value))

  unfoldable pub put_tenant_configuration : ConfigurationWrite → Tx (Configuration × Configuration)
  unfolding override_defined
  put_tenant_configuration w = do
    definition ←
        query down "query configuration definition"
          (λ db. find (λ d. d.key == w.key) db.configuration_definitions)
    override_defined w definition
