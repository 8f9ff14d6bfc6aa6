-- ===== src/Examples/Configurations.antt =====
-- Runs on configurations and their values.
use Prim.Native.String.{◌++◌}
use modura.Prelude.{
  String, Bool, true, Option, none, some, [], ◌∷◌, ◌≡◌, refl, ◌==◌, find, filter, count_where,
  update_where, unique, if◌then◌else◌,
}
use modura.Errors.{ok}
use modura.Text.Decimal.{print_number, print_before, digit, read_digits}
use modura.Database.{ConfigurationDefinition, Db}
use modura.Database.Constraints.{constraints}
use modura.Database.Tx.{run, control, query, exec_or, ◌>>=◌, pure, fail, within_transaction}
use modura.Audit.Redaction.{Json}
use modura.Settings.Types.{Configuration, ConfigurationWrite}
use modura.Settings.Values.{is_int64, valid_value_type, valid_value_type-integer}
use modura.Settings.Configurations.{put_tenant_configuration, tenant_view}
use modura.Settings.Configurations.Overriding.{IsOverridden, put_tenant_configuration_sound}
use modura.Examples.{up, sample}

abbrev as_stored : ConfigurationDefinition → ConfigurationDefinition → Bool
as_stored a b = true

abbrev same_text : String → String
same_text s = s

-- The largest int64, and the number after it.
abbrev decode : String → Option Json
decode s =
    if s == "9223372036854775807"
    then some (Json.number (print_number 9223372036854775807 ""))
    else none

abbrev definition : ConfigurationDefinition
definition = record {
  id = "c1";
  key = "limit";
  name = "Limit";
  value_type = "integer";
  tenant_overridable = true;
  created_at = 1;
  updated_at = 1;
}

abbrev configured : Db
configured = record sample {
  configuration_definitions = definition ∷ [];
  configuration_values =
      (record {
        owner = none;
        key = "limit";
        value = "7";
        version = 1;
        created_at = 1;
        updated_at = 1;
      })
      ∷ [];
}

abbrev desired : ConfigurationWrite
desired = record {
  tenant_id = "t1";
  key = "limit";
  expected_version = 0;
  value = "9223372036854775807";
  occurred_at = 50;
}

abbrev before : Configuration
before = tenant_view same_text decode up as_stored definition 0 ""

abbrev after : Configuration
after = tenant_view same_text decode up as_stored definition 1 "9223372036854775807"

abbrev overridden : Db
overridden =
    (within_transaction up (put_tenant_configuration same_text decode up as_stored desired)
      configured).1

overriding :
    within_transaction up
      (put_tenant_configuration same_text decode up as_stored desired)
      configured
    ≡ (ok (before, after), overridden)
unfolding within_transaction put_tenant_configuration valid_value_type is_int64 digit read_digits
    print_before run control query exec_or ◌>>=◌ pure fail find filter update_where count_where
    constraints unique
overriding = refl

put_tenant_configuration_sound_example :
    IsOverridden same_text decode up as_stored desired configured before after overridden
put_tenant_configuration_sound_example =
    put_tenant_configuration_sound same_text decode up as_stored desired configured overriding

valid_value_type-integer_example :
    (decode "9223372036854775807" ≡ some (Json.number (print_number 9223372036854775807 ""))
      → valid_value_type decode "integer" "9223372036854775807" ≡ true)
    × (decode "9223372036854775807"
          ≡ some (Json.number ("-" ++ print_number 9223372036854775807 ""))
        → valid_value_type decode "integer" "9223372036854775807" ≡ true)
valid_value_type-integer_example =
    valid_value_type-integer decode "9223372036854775807" 9223372036854775807
