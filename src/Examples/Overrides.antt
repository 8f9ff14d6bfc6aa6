-- ===== src/Examples/Overrides.antt =====
-- A history of configurations: a key is defined, and a tenant overrides it.
use modura.Prelude.{
  ℕ, String, Char, true, Option, none, some, ◌≡◌, refl, ◌==◌, ◌||◌, find, filter, count_where,
  update_where, unique, if◌then◌else◌,
}
use modura.Errors.{Result, ok}
use modura.Text.{trim_space, map_runes}
use modura.Text.Decimal.{print_number, print_before, digit, read_digits}
use modura.Audit
use modura.Audit.Redaction.{Json}
use modura.Database.{Db}
use modura.Database.Constraints.{constraints}
use modura.Database.Tx.{
  run, control, query, exec_or, ◌>>=◌, pure, fail, within_transaction, and_then, labelled,
  labelled_call, from_result,
}
use modura.Settings.Types.{WriteContext, PlatformWriteContext, Configuration}
use modura.Settings.Values.{is_int64, valid_value_type, stable_code}
use modura.Settings.Configurations
use modura.Settings.Configurations.Typing.{AllTyped}
use modura.Settings.Service
use modura.Settings.Service.{valid_write, valid_actor, valid_platform_write, valid_platform_actor}
use modura.Settings.Service.Typed.{
  Round, Write, overrides, defines, perform, History, start, next, History-AllTyped,
}
use modura.Examples.{up, sample}
use modura.Examples.Dictionaries.{any_json, same_text, new_id, marshal, orders}

abbrev same_rune : Char → Char
same_rune c = c

-- Numbers and the text x.
abbrev decode : String → Option Json
decode s =
    if s == "7" || s == "9"
    then some (Json.number s)
    else if s == "x"
    then some (Json.text s)
    else none

abbrev round : ℕ → Round
round now = record {
  new_event_id = λ at. ok (print_number at "");
  new_id = new_id;
  down = up;
  now = now;
}

abbrev by_platform : PlatformWriteContext
by_platform = record {
  actor = record { administrator_id = "root"; session_id = "p1" };
  reason = "limits";
  correlation_id = "c1";
}

abbrev by_tenant : WriteContext
by_tenant = record {
  actor = record { tenant_id = "t1"; user_id = "u1"; session_id = "s1" };
  correlation_id = "c2";
}

abbrev definition : Write
definition = defines by_platform "limit" "Limit" "integer" true 0 "7"

abbrev override : Write
override = overrides by_tenant "limit" 0 "9"

abbrev served : Round → Write → Db → Result Configuration × Db
served = perform same_rune marshal same_text decode any_json orders

abbrev defined : Db
defined = (served (round 50) definition sample).1

abbrev overridden : Db
overridden = (served (round 51) override defined).1

abbrev configuration : String → ℕ → String → Configuration
configuration source version value = record {
  id = "d2";
  key = "limit";
  name = "Limit";
  value_type = "integer";
  tenant_overridable = true;
  source = source;
  version = version;
  value = value;
}

defining : served (round 50) definition sample ≡ (ok (configuration "global" 1 "7"), defined)
unfolding Service.put_global_configuration Service.audit_platform valid_platform_write
    valid_platform_actor stable_code trim_space map_runes and_then labelled labelled_call
    from_result Audit.record_platform_write within_transaction
    Configurations.put_global_configuration valid_value_type is_int64 digit read_digits print_before
    run control query exec_or ◌>>=◌ pure fail find filter update_where count_where constraints
    unique
defining = refl

overriding : served (round 51) override defined ≡ (ok (configuration "tenant" 1 "9"), overridden)
unfolding Service.put_global_configuration Service.audit_platform valid_platform_write
    valid_platform_actor Service.put_configuration Service.audit valid_write valid_actor stable_code
    trim_space map_runes and_then labelled labelled_call from_result Audit.record_tenant_write
    Audit.record_platform_write within_transaction Configurations.put_global_configuration
    Configurations.put_tenant_configuration valid_value_type is_int64 digit read_digits print_before
    run control query exec_or ◌>>=◌ pure fail find filter update_where count_where constraints
    unique
overriding = refl

sample-AllTyped : AllTyped decode sample
unfolding find
sample-AllTyped owner key v found = cc

abbrev made : History same_rune marshal same_text decode any_json orders sample overridden
made = next (round 51) override (next (round 50) definition start defining) overriding

History-AllTyped_example : AllTyped decode overridden
History-AllTyped_example =
    History-AllTyped same_rune marshal same_text decode any_json orders (λ t v typed. typed)
      sample-AllTyped made
