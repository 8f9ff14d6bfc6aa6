-- ===== src/Settings/Dictionaries/Reading.antt =====
-- The dictionary of an owner under a code, as `loadTenantDictionary` and `loadGlobalDictionary` read it,
-- and the loop that inserts items.
use modura.Prelude.{
  ℕ, suc, String, Bool, true, false, ◌&&◌, Option, none, some, List, [], ◌∷◌, ◌≡◌, refl, sym, ap,
  ◌∙◌, ◌==◌, eq_iff, eq_refl, find, filter, filter-cons_true, filter-cons_false, eq-true→eq, arith,
  ◌+◌, count_where, map, insertion_sort, insert_sorted,
}
use modura.Database.{DictionaryType, DictionaryItemRow, Db}
use modura.Database.Constraints.{not_distinct}
use modura.Database.Tx.{Faults}
use modura.Database.Tx.Rules.{Ensures, ensures_pure, then_query, then_exec, weaken}
use modura.Settings.Types.{DictionaryItem, Dictionary, DictionaryWrite}
use modura.Settings.Dictionaries.{
  is_dictionary, is_item_of, item_view, item_row, items_of, dictionary_view, with_items,
  load_dictionary, insert_items,
}

pub not_distinct_refl : (o : Option String) → not_distinct o o ≡ true
not_distinct_refl none = refl
not_distinct_refl (some s) = eq_refl s

pub not_distinct→≡ : (a b : Option String) → not_distinct a b ≡ true → b ≡ a
not_distinct→≡ none none h = refl
not_distinct→≡ none (some b) h = cc
not_distinct→≡ (some a) none h = cc
not_distinct→≡ (some a) (some b) h = ap some (sym (eq-true→eq a b h))

-- Owners that differ share no row.
pub not_distinct-apart :
    (a b c : Option String)
    → not_distinct a b ≡ true
    → not_distinct b c ≡ false
    → not_distinct a c ≡ false
not_distinct-apart none none none h k = k
not_distinct-apart none none (some c) h k = refl
not_distinct-apart none (some b) c h k = cc
not_distinct-apart (some a) none c h k = cc
not_distinct-apart (some a) (some b) none h k = refl
not_distinct-apart (some a) (some b) (some c) h k =
    ground (arith, eq_iff a b, eq_iff b c, eq_iff a c)

-- The item rows after the loop that inserts items.
abbrev pub pushed :
    DictionaryWrite → String → List DictionaryItem → List DictionaryItemRow → List DictionaryItemRow
pushed w id [] rows = rows
pushed w id (i ∷ is) rows = pushed w id is (item_row w id i ∷ rows)

-- How many items satisfy a test, as they are read from the rows.
abbrev pub count_items : (DictionaryItem → Bool) → List DictionaryItemRow → ℕ
count_items q rows = count_where q (map item_view rows)

-- The loop adds the given items, each as it was given.
pub count_items-pushed :
    (q : DictionaryItem → Bool) (w : DictionaryWrite) (id : String) (is : List DictionaryItem)
    (rows : List DictionaryItemRow)
    → count_items q (pushed w id is rows) ≡ count_where q is + count_items q rows
unfolding count_where
count_items-pushed q w id [] rows = ground arith
count_items-pushed q w id (i ∷ is) rows =
    ground (arith, count_items-pushed q w id is (item_row w id i ∷ rows))

count_items-insert :
    (q : DictionaryItem → Bool) (before : DictionaryItemRow → DictionaryItemRow → Bool)
    (r : DictionaryItemRow) (rows : List DictionaryItemRow)
    → count_items q (insert_sorted before r rows) ≡ count_items q (r ∷ rows)
unfolding count_where insert_sorted
count_items-insert q before r [] = refl
count_items-insert q before r (x ∷ rows) = ground (arith, count_items-insert q before r rows)

-- The listing of them has the given items with those that were there.
pub count_items-sorted :
    (q : DictionaryItem → Bool) (before : DictionaryItemRow → DictionaryItemRow → Bool)
    (rows : List DictionaryItemRow)
    → count_items q (insertion_sort before rows) ≡ count_items q rows
unfolding insertion_sort count_where
count_items-sorted q before [] = refl
count_items-sorted q before (r ∷ rows) =
    count_items-insert q before r (insertion_sort before rows)
    ∙ ground (arith, count_items-sorted q before rows)

pub filter-pushed :
    (w : DictionaryWrite) (id : String) (is : List DictionaryItem) (rows : List DictionaryItemRow)
    → filter (is_item_of w.owner id) (pushed w id is rows)
      ≡ pushed w id is (filter (is_item_of w.owner id) rows)
filter-pushed w id [] rows = refl
filter-pushed w id (i ∷ is) rows =
    filter-pushed w id is (item_row w id i ∷ rows)
    ∙ ap (pushed w id is) (
        filter-cons_true (is_item_of w.owner id) {x = item_row w id i} rows
          (rw (not_distinct_refl w.owner) (eq_refl id)))

pub filter-pushed_other :
    (w : DictionaryWrite) (id : String) (owner : Option String) (x : String)
    (is : List DictionaryItem) (rows : List DictionaryItemRow)
    → (not_distinct w.owner owner && id == x) ≡ false
    → filter (is_item_of owner x) (pushed w id is rows) ≡ filter (is_item_of owner x) rows
filter-pushed_other w id owner x [] rows h = refl
filter-pushed_other w id owner x (i ∷ is) rows h =
    filter-pushed_other w id owner x is (item_row w id i ∷ rows) h
    ∙ filter-cons_false (is_item_of owner x) {x = item_row w id i} rows h

module _ (items : DictionaryItemRow → DictionaryItemRow → Bool) where
  abbrev pub viewed : Option String → Db → Option DictionaryType → Option Dictionary
  viewed owner db none = none
  viewed owner db (some d) = some (dictionary_view items owner d (items_of items owner d.id db))

  -- The dictionary of an owner under a code, with its items.
  abbrev pub dictionary_of : Option String → String → Db → Option Dictionary
  dictionary_of owner code db =
      viewed owner db (find (is_dictionary owner code) db.dictionary_types)

  -- The rows of an owner read the same in both databases.
  abbrev pub SameFor : Option String → Db → Db → Type 0
  SameFor owner db db' =
      ((code : String)
        → find (is_dictionary owner code) db'.dictionary_types
          ≡ find (is_dictionary owner code) db.dictionary_types)
      × ((id : String)
          → filter (is_item_of owner id) db'.dictionary_items
            ≡ filter (is_item_of owner id) db.dictionary_items)

  -- What a dictionary is read from: its row and the rows of its items.
  pub dictionary_of-reads :
      (owner : Option String) (code : String) (db db' : Db)
      → find (is_dictionary owner code) db'.dictionary_types
        ≡ find (is_dictionary owner code) db.dictionary_types
      → ((d : DictionaryType)
          → find (is_dictionary owner code) db.dictionary_types ≡ some d
          → filter (is_item_of owner d.id) db'.dictionary_items
            ≡ filter (is_item_of owner d.id) db.dictionary_items)
      → dictionary_of owner code db' ≡ dictionary_of owner code db
  unfolding items_of
  dictionary_of-reads owner code db db' types rows =
      rw types (from_row (find (is_dictionary owner code) db.dictionary_types) refl)
    where
      from_row :
          (o : Option DictionaryType)
          → find (is_dictionary owner code) db.dictionary_types ≡ o
          → viewed owner db' o ≡ viewed owner db o
      from_row none h = refl
      from_row (some d) h = rw (rows d h)

  pub dictionary_of-same :
      (owner : Option String) (code : String) (db db' : Db)
      → SameFor owner db db'
      → dictionary_of owner code db' ≡ dictionary_of owner code db
  dictionary_of-same owner code db db' (types, rows) =
      dictionary_of-reads owner code db db' (types code) λ d h. rows d.id

  module _ (down : Faults) where
    pub load_dictionary-ensures :
        (owner : Option String) (code : String) (db : Db)
        → Ensures
            (load_dictionary items down owner code)
            db
            (λ o db'. (o ≡ dictionary_of owner code db) × (db' ≡ db))
    unfolding load_dictionary
    load_dictionary-ensures owner code db =
        then_query _ _ _ _ (found (find (is_dictionary owner code) db.dictionary_types) refl)
      where
        found :
            (o : Option DictionaryType)
            → find (is_dictionary owner code) db.dictionary_types ≡ o
            → Ensures
                (with_items items down owner o)
                db
                (λ r db'. (r ≡ dictionary_of owner code db) × (db' ≡ db))
        found none h = unfold with_items in ensures_pure _ (sym (ap (viewed owner db) h), refl)
        found (some d) h =
            unfold with_items in
            then_query _ _ _ _ (ensures_pure _ (sym (ap (viewed owner db) h), refl))

    pub insert_items-ensures :
        (w : DictionaryWrite) (id : String) (round : ℕ) (is : List DictionaryItem) (db : Db)
        → Ensures (insert_items items down w id round is) db (λ u db'.
          (db'.dictionary_items ≡ pushed w id is db.dictionary_items)
          × (db'.dictionary_types ≡ db.dictionary_types))
    unfolding insert_items
    insert_items-ensures w id round [] db = ensures_pure _ (refl, refl)
    insert_items-ensures w id round (i ∷ is) db =
        then_exec _ _ _ _ _ _ (weaken (insert_items-ensures w id (suc round) is _) (λ u d h. h))
