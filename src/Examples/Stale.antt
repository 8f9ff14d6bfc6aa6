-- ===== src/Examples/Stale.antt =====
-- Two writers of one dictionary that have read the same version.
use modura.Prelude.{
  none, ◌∷◌, [], ◌≡◌, refl, find, filter, contains, count_where, update_where, delete_where, unique,
  insertion_sort, arith,
}
use modura.Errors.{ok}
use modura.Database.{Db}
use modura.Database.Constraints.{constraints}
use modura.Database.Tx.{run, control, query, exec_or, ◌>>=◌, pure, fail, within_transaction}
use modura.Settings.Types.{Dictionary, DictionaryWrite}
use modura.Settings.Dictionaries.{replace_dictionary, insert_items, items_of}
use modura.Settings.Dictionaries.Versions.{
  start, next, Write, deletes, Commits, stale_write_refused,
}
use modura.Examples.{up}
use modura.Examples.Dictionaries.{as_stored, item, desired, replaced, replacing, with_dictionaries}

-- The global dictionary of sizes is replaced between the two writes.
abbrev sizes : DictionaryWrite
sizes = record {
  owner = none;
  id = "g3";
  code = "size";
  name = "Sizes";
  expected_version = 1;
  items = item "i5" "small" ∷ [];
  occurred_at = 60;
}

abbrev sizes_before : Dictionary
sizes_before = record {
  id = "g2";
  code = "size";
  name = "size";
  source = "global";
  version = 1;
  items = [];
}

abbrev sizes_after : Dictionary
sizes_after = record sizes_before { name = "Sizes"; version = 2; items = item "i5" "small" ∷ [] }

abbrev resized : Db
resized = (within_transaction up (replace_dictionary as_stored up sizes) replaced).1

resizing :
    within_transaction up (replace_dictionary as_stored up sizes) replaced
    ≡ (ok (sizes_before, sizes_after), resized)
unfolding within_transaction replace_dictionary insert_items items_of run control query exec_or
    ◌>>=◌ pure fail find filter update_where delete_where count_where constraints unique contains
    insertion_sort
resizing = refl

-- The second writer has read the first version, too, and deletes it.
abbrev deletion : Write as_stored
deletion = deletes "t1" "color" 1

stale_write_refused_example : ¬ Commits as_stored up deletion resized
stale_write_refused_example =
    stale_write_refused as_stored up up desired deletion with_dictionaries refl refl (omega arith)
      replacing (next up sizes start resizing)
