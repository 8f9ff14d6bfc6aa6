-- ===== src/Examples/Dictionaries.antt =====
-- Runs on dictionaries.
use modura.Prelude.{
  ℕ, String, Char, Bool, true, false, Option, none, some, List, [], ◌∷◌, pos, ◌≡◌, refl, ◌==◌, find,
  filter, any, contains, count_where, update_where, delete_where, unique, insertion_sort, ◌&&◌,
  blank, length, nat_eq, if◌then◌else◌,
}
use modura.Errors.{SettingsError, settings, Result, ok, err}
use modura.Text.{trim_space, map_runes}
use modura.Audit.Redaction.{Json}
use modura.Database.{DictionaryType, Db}
use modura.Database.Constraints.{constraints, not_distinct}
use modura.Database.Tx.{
  run, control, query, exec_or, ◌>>=◌, pure, fail, within_transaction, and_then, labelled,
  labelled_call, from_result,
}
use modura.Settings.Types.{WriteContext, DictionaryItem, Dictionary, DictionaryWrite}
use modura.Settings.Dictionaries.{
  replace_dictionary, list_effective_dictionaries, is_dictionary, effective_types, insert_items,
  items_of,
}
use modura.Settings.Dictionaries.Reading.{dictionary_of}
use modura.Settings.Dictionaries.Replacing.{IsReplaced}
use modura.Settings.Dictionaries.Apart.{replace_dictionary_exact}
use modura.Settings.Dictionaries.Effective.{effective_any, list_effective_dictionaries_exact}
use modura.Settings.Service
use modura.Settings.Service.{SettingsMarshal, SettingsOrders, normalized, valid_write, valid_actor}
use modura.Settings.Values.{stable_code}
use modura.Audit
use modura.Settings.Service.Writes.{IsWritten, well_formed, replace_dictionary_audited}
use modura.Examples.{up, sample}

-- Rows in the order of the tables.
abbrev pub as_stored : {A : Type 0} → A → A → Bool
as_stored a b = true

abbrev pub item : String → String → DictionaryItem
item id code = record { id = id; code = code; label = code; sort_order = pos 0; enabled = true }

abbrev pub desired : DictionaryWrite
desired = record {
  owner = some "t1";
  id = "d2";
  code = "color";
  name = "Colors";
  expected_version = 1;
  items = item "i3" "red" ∷ item "i4" "blue" ∷ [];
  occurred_at = 50;
}

abbrev dictionary_type : Option String → String → String → DictionaryType
dictionary_type owner id code = record {
  owner = owner;
  id = id;
  code = code;
  name = code;
  version = 1;
  created_at = 1;
  updated_at = 1;
}

abbrev pub with_dictionaries : Db
with_dictionaries = record sample {
  dictionary_types =
      dictionary_type (some "t1") "d1" "color"
      ∷ dictionary_type none "g1" "color"
      ∷ dictionary_type none "g2" "size"
      ∷ [];
  dictionary_items =
      (record {
        owner = some "t1";
        id = "i1";
        dictionary_type_id = "d1";
        code = "green";
        label = "green";
        sort_order = pos 0;
        enabled = true;
        created_at = 1;
        updated_at = 1;
      })
      ∷ [];
}

abbrev pub before : Dictionary
before = record {
  id = "d1";
  code = "color";
  name = "color";
  source = "tenant";
  version = 1;
  items = item "i1" "green" ∷ [];
}

abbrev pub after : Dictionary
after = record {
  id = "d1";
  code = "color";
  name = "Colors";
  source = "tenant";
  version = 2;
  items = item "i4" "blue" ∷ item "i3" "red" ∷ [];
}

abbrev pub replaced : Db
replaced = (within_transaction up (replace_dictionary as_stored up desired) with_dictionaries).1

pub replacing :
    within_transaction up (replace_dictionary as_stored up desired) with_dictionaries
    ≡ (ok (before, after), replaced)
unfolding within_transaction replace_dictionary insert_items items_of run control query exec_or
    ◌>>=◌ pure fail find filter update_where delete_where count_where constraints unique contains
    insertion_sort
replacing = refl

replace_dictionary_exact_example :
    IsReplaced as_stored up desired with_dictionaries before after replaced
    × ((owner : Option String) (code : String)
        → (not_distinct (some "t1") owner && "color" == code) ≡ false
        → dictionary_of as_stored owner code replaced
          ≡ dictionary_of as_stored owner code with_dictionaries)
replace_dictionary_exact_example =
    replace_dictionary_exact as_stored up desired with_dictionaries replacing

-- A dictionary is replaced over the version that it has only.
replaced_with_stale_version :
    within_transaction up
      (replace_dictionary as_stored up (record desired { expected_version = 3 }))
      with_dictionaries
    ≡ (err (settings SettingsError.conflict), with_dictionaries)
unfolding within_transaction replace_dictionary insert_items items_of run control query exec_or
    ◌>>=◌ pure fail find filter update_where delete_where count_where constraints unique contains
    insertion_sort
replaced_with_stale_version = refl

abbrev size : Dictionary
size = record {
  id = "g2";
  code = "size";
  name = "size";
  source = "global";
  version = 1;
  items = [];
}

listing :
    list_effective_dictionaries as_stored up as_stored "t1" with_dictionaries
    ≡ (ok (before ∷ size ∷ []), with_dictionaries)
unfolding list_effective_dictionaries effective_types items_of run query ◌>>=◌ pure fail filter
    insertion_sort
listing = refl

list_effective_dictionaries_exact_example :
    (with_dictionaries ≡ with_dictionaries)
    × ((q : Dictionary → Bool)
        → any q (before ∷ size ∷ [])
          ≡ effective_any as_stored up as_stored "t1" with_dictionaries q)
    × ((code : String)
        → any (is_dictionary (some "t1") code) with_dictionaries.dictionary_types ≡ true
        → any (λ (d : Dictionary). d.code == code && d.source == "global") (before ∷ size ∷ [])
          ≡ false)
list_effective_dictionaries_exact_example =
    list_effective_dictionaries_exact as_stored up as_stored "t1" with_dictionaries listing

-- The same replacement through the service.
abbrev same_rune : Char → Char
same_rune c = c

abbrev pub any_json : String → Bool
any_json s = true

abbrev pub no_json : String → Option Json
no_json s = none

abbrev pub same_text : String → String
same_text s = s

abbrev pub event_id : ℕ → Result String
event_id at = ok "e1"

abbrev pub new_id : ℕ → ℕ → Result String
new_id k at = ok (if nat_eq k 0 then "d2" else if nat_eq k 1 then "i3" else "i4")

abbrev pub marshal : SettingsMarshal
marshal = record { null = ok "null"; dictionary = λ d. ok d.name; configuration = λ c. ok c.value }

abbrev pub orders : SettingsOrders
orders = record { types = as_stored; items = as_stored; definitions = as_stored }

abbrev request : WriteContext
request = record {
  actor = record { tenant_id = "t1"; user_id = "u1"; session_id = "s1" };
  correlation_id = "c1";
}

abbrev asked : List DictionaryItem
asked = item "" "red" ∷ item "" "blue" ∷ []

abbrev written : Db
written =
    (Service.replace_dictionary same_rune marshal same_text no_json any_json event_id new_id up
      orders 50 request "color" "Colors" 1 asked with_dictionaries).1

writing :
    Service.replace_dictionary same_rune marshal same_text no_json any_json event_id new_id up
      orders 50 request "color" "Colors" 1 asked with_dictionaries
    ≡ (ok after, written)
unfolding Service.replace_dictionary Service.check_items Service.replacing Service.audit valid_write
    valid_actor stable_code trim_space map_runes and_then labelled labelled_call from_result
    Audit.record_tenant_write within_transaction replace_dictionary insert_items items_of run
    control query exec_or ◌>>=◌ pure fail find filter update_where delete_where count_where
    constraints unique contains insertion_sort
writing = refl

replace_dictionary_audited_example :
    (valid_write request ≡ true)
    × (stable_code (normalized same_rune "color") ≡ true)
    × (blank (trim_space "Colors") ≡ false)
    × ((id : String) × (checked : List DictionaryItem) × (well_formed [] checked ≡ true)
        × (length checked ≡ 2)
        × IsWritten same_rune marshal same_text no_json any_json event_id new_id up orders 50
            request
            (record desired { id = id; items = checked })
            with_dictionaries
            after
            written)
unfolding map_runes trim_space
replace_dictionary_audited_example =
    replace_dictionary_audited same_rune marshal same_text no_json any_json event_id new_id up
      orders 50 request "color" "Colors" 1 asked with_dictionaries writing
