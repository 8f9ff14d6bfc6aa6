-- ===== src/Settings/Dictionaries.antt =====
-- Dictionaries in backend/internal/modules/settings/postgres/store.go. The methods for a tenant and
-- those for the platform run the same statements on the two sets of tables: here they are one function
-- of the owner. `types` and `items` are the orders of the two ORDER BY clauses. Where the source hands
-- on an error of the driver without a text, the label names the statement.
pub mod Reading
pub mod Replacing
pub mod Apart
pub mod Versions
pub mod Effective
use modura.Prelude.{
  ℕ, suc, ◌+◌, String, Bool, not, ◌&&◌, Option, none, some, List, [], ◌∷◌, ◌++◌, ◌||◌, ◌==◌, nat_eq,
  any, find, filter, map, insertion_sort, if◌then◌else◌, count_where, update_where, delete_where,
}
use modura.Errors.{SettingsError, settings, Error, ok}
use modura.Database.{DictionaryType, DictionaryItemRow, Db}
use modura.Database.Constraints.{not_distinct}
use modura.Database.Tx.{Faults, Tx, Op, pure, fail, query, exec, exec_at, run, ◌>>=◌, ◌>>◌}
use modura.Settings.Types.{DictionaryItem, Dictionary, no_dictionary, DictionaryWrite, source_of}

abbrev pub not_found : Error
not_found = settings SettingsError.not_found

abbrev pub conflict : Error
conflict = settings SettingsError.conflict

-- WHERE tenant_id = $1 AND code = $2, or WHERE code = $1.
abbrev pub is_dictionary : Option String → String → DictionaryType → Bool
is_dictionary owner code d = not_distinct d.owner owner && d.code == code

abbrev pub is_type : Option String → String → DictionaryType → Bool
is_type owner id d = not_distinct d.owner owner && d.id == id

abbrev pub is_item_of : Option String → String → DictionaryItemRow → Bool
is_item_of owner id i = not_distinct i.owner owner && i.dictionary_type_id == id

abbrev pub item_view : DictionaryItemRow → DictionaryItem
item_view i = record {
  id = i.id;
  code = i.code;
  label = i.label;
  sort_order = i.sort_order;
  enabled = i.enabled;
}

abbrev pub type_row : DictionaryWrite → DictionaryType
type_row w = record {
  owner = w.owner;
  id = w.id;
  code = w.code;
  name = w.name;
  version = 1;
  created_at = w.occurred_at;
  updated_at = w.occurred_at;
}

abbrev pub item_row : DictionaryWrite → String → DictionaryItem → DictionaryItemRow
item_row w id i = record {
  owner = w.owner;
  id = i.id;
  dictionary_type_id = id;
  code = i.code;
  label = i.label;
  sort_order = i.sort_order;
  enabled = i.enabled;
  created_at = w.occurred_at;
  updated_at = w.occurred_at;
}

abbrev pub with_name : DictionaryWrite → DictionaryType → DictionaryType
with_name w d = record d { name = w.name; version = d.version + 1; updated_at = w.occurred_at }

-- The texts of the errors.
pub record Labels : Type 0 where
  pub load : String
  pub items : String
  pub insert : String
  pub delete_items : String
  pub update : String
  pub insert_item : String

abbrev labels_of : Option String → Labels
labels_of (some t) = record {
  load = "query tenant dictionary";
  items = "query tenant dictionary items";
  insert = "insert tenant dictionary";
  delete_items = "delete tenant dictionary items";
  update = "update tenant dictionary";
  insert_item = "insert tenant dictionary item";
}
labels_of none = record {
  load = "query global dictionary";
  items = "query global dictionary items";
  insert = "insert global dictionary";
  delete_items = "delete global dictionary items";
  update = "update global dictionary";
  insert_item = "insert global dictionary item";
}

-- The faults of one round of a loop.
abbrev in_round : Faults → ℕ → Faults
in_round down round label _ = down label round

module _ (items : DictionaryItemRow → DictionaryItemRow → Bool) where
  -- SELECT … WHERE dictionary_type_id = $1 ORDER BY sort_order, code, id
  unfoldable pub items_of : Option String → String → Db → List DictionaryItem
  items_of owner id db =
      map item_view (insertion_sort items (filter (is_item_of owner id) db.dictionary_items))

  abbrev pub dictionary_view : Option String → DictionaryType → List DictionaryItem → Dictionary
  dictionary_view owner d shown = record {
    id = d.id;
    code = d.code;
    name = d.name;
    source = source_of owner;
    version = d.version;
    items = shown;
  }

module _ (items : DictionaryItemRow → DictionaryItemRow → Bool) (down : Faults) where
  with_items : Option String → Option DictionaryType → Tx (Option Dictionary)
  with_items owner none = pure none
  with_items owner (some d) = do
    shown ← query down (labels_of owner).items (items_of items owner d.id)
    pure (some (dictionary_view items owner d shown))

  -- loadTenantDictionary and loadGlobalDictionary: none is ErrNotFound.
  unfoldable pub load_dictionary : Option String → String → Tx (Option Dictionary)
  unfolding with_items
  load_dictionary owner code = do
    found ←
        query down (labels_of owner).load
          (λ db. find (is_dictionary owner code) db.dictionary_types)
    with_items owner found

  -- The type row under which the items will stand, and the dictionary as it was.
  prepare : DictionaryWrite → Option Dictionary → Tx (String × Dictionary)
  prepare w none =
      if nat_eq w.expected_version 0
      then (do
        exec down (labels_of w.owner).insert
            (λ db. (1, record db { dictionary_types = type_row w ∷ db.dictionary_types }))
        pure (w.id, no_dictionary))
      else fail not_found
  prepare w (some d) =
      if nat_eq w.expected_version 0 || not (nat_eq d.version w.expected_version)
      then fail conflict
      else (do
        exec down (labels_of w.owner).delete_items (λ db. (
          count_where (is_item_of w.owner d.id) db.dictionary_items,
          record db {
            dictionary_items = delete_where (is_item_of w.owner d.id) db.dictionary_items;
          },
        ))
        exec down (labels_of w.owner).update (λ db. (
          count_where (is_type w.owner d.id) db.dictionary_types,
          record db {
            dictionary_types =
                update_where (is_type w.owner d.id) (with_name w) db.dictionary_types;
          },
        ))
        pure (d.id, d))

  unfoldable pub insert_items : DictionaryWrite → String → ℕ → List DictionaryItem → Tx (Unit {0})
  insert_items w id round [] = pure tt
  insert_items w id round (i ∷ is) = do
    exec_at down round (labels_of w.owner).insert_item
        (λ db. (1, record db { dictionary_items = item_row w id i ∷ db.dictionary_items }))
    insert_items w id (suc round) is

  reloaded : Dictionary → Option Dictionary → Tx (Dictionary × Dictionary)
  reloaded before none = fail not_found
  reloaded before (some after) = pure (before, after)

  -- ReplaceTenantDictionary, ReplaceGlobalDictionary
  unfoldable pub replace_dictionary : DictionaryWrite → Tx (Dictionary × Dictionary)
  unfolding prepare insert_items load_dictionary reloaded
  replace_dictionary w = do
    found ← load_dictionary w.owner w.code
    prepared ← prepare w found
    insert_items w prepared.0 0 w.items
    after ← load_dictionary w.owner w.code
    reloaded prepared.1 after

  -- The rows of its items go with a type (ON DELETE CASCADE).
  delete_matching : String → ℕ → Option Dictionary → Tx Dictionary
  delete_matching tenant expected none = fail not_found
  delete_matching tenant expected (some d) =
      if nat_eq d.version expected
      then (do
        exec down "delete tenant dictionary" (λ db. (
          count_where (is_type (some tenant) d.id) db.dictionary_types,
          record db {
            dictionary_types = delete_where (is_type (some tenant) d.id) db.dictionary_types;
            dictionary_items = delete_where (is_item_of (some tenant) d.id) db.dictionary_items;
          },
        ))
        pure d)
      else fail conflict

  -- DeleteTenantDictionary
  unfoldable pub delete_tenant_dictionary : String → String → ℕ → Tx Dictionary
  unfolding delete_matching load_dictionary
  delete_tenant_dictionary tenant code expected = do
    found ← load_dictionary (some tenant) code
    delete_matching tenant expected found

  -- The loop that reads the items of each dictionary in a query of its own.
  unfoldable pub with_all_items : String → ℕ → List DictionaryType → Tx (List Dictionary)
  with_all_items label round [] = pure []
  with_all_items label round (d ∷ ds) = do
    shown ← query (in_round down round) label (items_of items d.owner d.id)
    rest ← with_all_items label (suc round) ds
    pure (dictionary_view items d.owner d shown ∷ rest)

  module _ (types : DictionaryType → DictionaryType → Bool) where
    -- The tenant's types, and the global ones whose code is not one of theirs.
    unfoldable pub effective_types : String → Db → List DictionaryType
    effective_types tenant db = insertion_sort types (
        filter (λ d. not_distinct d.owner (some tenant)) db.dictionary_types
        ++ filter
            (λ g.
              not_distinct g.owner none
              && not (any (is_dictionary (some tenant) g.code) db.dictionary_types))
            db.dictionary_types)

    unfoldable pub list_effective_dictionaries : String → Op (List Dictionary)
    unfolding with_all_items
    list_effective_dictionaries tenant = run do
      rows ← query down "query effective dictionaries" (effective_types tenant)
      dictionaries ← with_all_items "query dictionary items" 0 rows
      pure (ok dictionaries)

    unfoldable pub list_global_dictionaries : Op (List Dictionary)
    unfolding with_all_items
    list_global_dictionaries = run do
      rows ←
          query down "query global dictionaries" (λ db.
            insertion_sort types (filter (λ d. not_distinct d.owner none) db.dictionary_types))
      dictionaries ← with_all_items "query global dictionary items" 0 rows
      pure (ok dictionaries)
