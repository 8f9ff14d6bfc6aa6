-- ===== src/Settings/Dictionaries/Replacing.antt =====
-- What `ReplaceTenantDictionary` and `ReplaceGlobalDictionary` have checked and what they leave.
use modura.Prelude.{
  count_where, ◌+◌, String, Bool, true, false, not, ◌||◌, Option, none, some, List, [], ◌∷◌, ◌≡◌,
  refl, sym, ap, subst, ◌∙◌, ◌⊎◌, inl, inr, ◌==◌, eq_refl, nat_eq, find, find_sound, filter, map,
  insertion_sort, update_where, find-cons_self, find-update_found, find-update_other,
  filter-delete_self, filter-delete_where, delete_where, and-eq-true, eq-true→eq, arith,
}
use modura.Errors.{ok}
use modura.Database.{DictionaryType, DictionaryItemRow, Db}
use modura.Database.Constraints.{not_distinct}
use modura.Database.Tx.{Faults, within_transaction}
use modura.Database.Tx.Atomic.{within_transaction-ensures}
use modura.Database.Tx.Rules.{
  Ensures, ensures_pure, ensures_fail, ensures_if, ensures_at, then_exec, then_any,
}
use modura.Settings.Types.{DictionaryItem, Dictionary, no_dictionary, DictionaryWrite}
use modura.Settings.Dictionaries.{
  is_dictionary, is_type, is_item_of, item_view, type_row, with_name, items_of, dictionary_view,
  prepare, reloaded, replace_dictionary,
}
use modura.Settings.Dictionaries.Reading.{
  count_items, count_items-sorted, count_items-pushed, not_distinct_refl, not_distinct-apart,
  pushed, filter-pushed, filter-pushed_other, viewed, dictionary_of, SameFor, dictionary_of-same,
  load_dictionary-ensures, insert_items-ensures,
}

module _ (items : DictionaryItemRow → DictionaryItemRow → Bool) where
  module _ (down : Faults) where
    module _ (w : DictionaryWrite) (db : Db) where
      -- What was there before: nothing, and version 0 was expected; or the dictionary with the
      -- expected version, whose items were deleted. `rest` are the item rows under `id` that stay.
      abbrev pub Prior : String → Dictionary → List DictionaryItemRow → Type 0
      Prior id before rest =
          ((dictionary_of items w.owner w.code db ≡ none)
            × (w.expected_version ≡ 0)
            × (before ≡ no_dictionary)
            × (id ≡ w.id)
            × (rest ≡ filter (is_item_of w.owner id) db.dictionary_items))
          ⊎ ((dictionary_of items w.owner w.code db ≡ some before)
              × (before.version ≡ w.expected_version)
              × (id ≡ before.id)
              × (rest ≡ []))

      abbrev pub OthersSame : Db → Type 0
      OthersSame db' =
          (owner : Option String) → not_distinct w.owner owner ≡ false → SameFor items owner db db'

      record IsPrepared (id : String) (before : Dictionary) (db1 : Db) : Type 0 where
        row : DictionaryType
        read : find (is_dictionary w.owner w.code) db1.dictionary_types ≡ some row
        row_id : row.id ≡ id
        row_code : row.code ≡ w.code
        row_name : row.name ≡ w.name
        row_version : row.version ≡ w.expected_version + 1
        prior : Prior id before (filter (is_item_of w.owner id) db1.dictionary_items)
        others : OthersSame db1

      created :
          find (is_dictionary w.owner w.code) db.dictionary_types ≡ none
          → nat_eq w.expected_version 0 ≡ true
          → IsPrepared w.id no_dictionary
              (record db { dictionary_types = type_row w ∷ db.dictionary_types })
      created h k = record {
        row = type_row w;
        read =
            find-cons_self (is_dictionary w.owner w.code) {x = type_row w} db.dictionary_types
              (rw (not_distinct_refl w.owner) (eq_refl w.code));
        row_id = refl;
        row_code = refl;
        row_name = refl;
        row_version = ground arith;
        prior = inl (ap (viewed items w.owner db) h, ground arith, refl, refl, refl);
        others = λ owner apart. (λ code. unfold find in rw apart, λ id. refl);
      }

      updated_db : String → Db
      updated_db id = record db {
        dictionary_items = delete_where (is_item_of w.owner id) db.dictionary_items;
        dictionary_types = update_where (is_type w.owner id) (with_name w) db.dictionary_types;
      }

      updated :
          (d : DictionaryType)
          → find (is_dictionary w.owner w.code) db.dictionary_types ≡ some d
          → nat_eq d.version w.expected_version ≡ true
          → IsPrepared d.id
              (dictionary_view items w.owner d (items_of items w.owner d.id db))
              (updated_db d.id)
      unfolding updated_db
      updated d h k =
          let here = find_sound (is_dictionary w.owner w.code) db.dictionary_types h in
          let (owned, coded) = and-eq-true (not_distinct d.owner w.owner) (d.code == w.code) here in
          record {
            row = with_name w d;
            read =
                find-update_found (is_dictionary w.owner w.code) (is_type w.owner d.id)
                  (with_name w) db.dictionary_types h (rw (owned, eq_refl d.id)) (λ y. refl);
            row_id = refl;
            row_code = eq-true→eq d.code w.code coded;
            row_name = refl;
            row_version = ground arith;
            prior = inr (
              ap (viewed items w.owner db) h,
              ground arith,
              refl,
              filter-delete_self (is_item_of w.owner d.id) db.dictionary_items,
            );
            others = λ owner apart. (
              λ code.
                  find-update_other (is_dictionary owner code) (is_type w.owner d.id) (with_name w)
                    db.dictionary_types
                    (λ y m.
                      rw (not_distinct-apart y.owner w.owner owner (and-eq-true _ _ m).0 apart))
                    (λ y. refl),
              λ id.
                  filter-delete_where (is_item_of owner id) (is_item_of w.owner d.id)
                    db.dictionary_items
                    (λ y m.
                      rw (not_distinct-apart y.owner w.owner owner (and-eq-true _ _ m).0 apart)),
            );
          }

      prepare-ensures :
          (o : Option DictionaryType)
          → find (is_dictionary w.owner w.code) db.dictionary_types ≡ o
          → Ensures
              (prepare items down w (viewed items w.owner db o))
              db
              (λ r db1. IsPrepared r.0 r.1 db1)
      unfolding prepare updated_db
      prepare-ensures none h =
          ensures_if _ (λ k. then_exec _ _ _ _ _ _ (ensures_pure _ (created h k)))
            (λ k. ensures_fail _)
      prepare-ensures (some d) h =
          ensures_if (nat_eq w.expected_version 0 || not (nat_eq d.version w.expected_version))
            (λ k. ensures_fail _)
            λ k.
              then_exec _ _ _ _ _ _
                (then_exec _ _ _ _ _ _ (ensures_pure _ (updated d h (ground arith))))

      -- What a replacement leaves: it reads back what it returns, under the next version.
      pub record IsReplaced (before after : Dictionary) (db' : Db) : Type 0 where
        pub read_back : dictionary_of items w.owner w.code db' ≡ some after
        pub code : after.code ≡ w.code
        pub name : after.name ≡ w.name
        pub version : after.version ≡ w.expected_version + 1
        pub rest : List DictionaryItemRow
        pub prior : Prior after.id before rest
        pub content :
            after.items ≡ map item_view (insertion_sort items (pushed w after.id w.items rest))
        pub given :
            (q : DictionaryItem → Bool)
            → count_where q after.items ≡ count_where q w.items + count_items q rest
        pub others : OthersSame db'

      inserted :
          (id : String) (before : Dictionary) (db1 db2 : Db)
          → IsPrepared id before db1
          → db2.dictionary_items ≡ pushed w id w.items db1.dictionary_items
          → db2.dictionary_types ≡ db1.dictionary_types
          → (after : Dictionary) × (dictionary_of items w.owner w.code db2 ≡ some after)
            × IsReplaced before after db2
      unfolding items_of
      inserted id before db1 db2 k rows types =
          let row_read : find (is_dictionary w.owner w.code) db2.dictionary_types ≡ some k.row =
            subst (λ ts. find (is_dictionary w.owner w.code) ts ≡ some k.row) (sym types) k.read in
          let reads = ap (viewed items w.owner db2) row_read in
          let item_rows : filter (is_item_of w.owner k.row.id) db2.dictionary_items
              ≡ pushed w k.row.id w.items
                  (filter (is_item_of w.owner k.row.id) db1.dictionary_items) =
            rw (k.row_id, rows) (filter-pushed w id w.items db1.dictionary_items) in
          (
            dictionary_view items w.owner k.row (items_of items w.owner k.row.id db2),
            reads,
            record {
              read_back = reads;
              code = k.row_code;
              name = k.row_name;
              version = k.row_version;
              rest = filter (is_item_of w.owner k.row.id) db1.dictionary_items;
              prior =
                  subst (λ x. Prior x before (filter (is_item_of w.owner x) db1.dictionary_items))
                    (sym k.row_id) k.prior;
              content = ap (λ rs. map item_view (insertion_sort items rs)) item_rows;
              given = λ q.
                  ap (λ rs. count_items q (insertion_sort items rs)) item_rows
                  ∙ count_items-sorted q items (pushed w k.row.id w.items _)
                  ∙ count_items-pushed q w k.row.id w.items _;
              others = λ owner apart. (
                λ code. ap (find (is_dictionary owner code)) types ∙ (k.others owner apart).0 code,
                λ x.
                    ap (filter (is_item_of owner x)) rows
                    ∙ filter-pushed_other w id owner x w.items db1.dictionary_items (rw apart)
                    ∙ (k.others owner apart).1 x,
              );
            },
          )

      pub replace_dictionary-ensures :
          Ensures (replace_dictionary items down w) db (λ r db'. IsReplaced r.0 r.1 db')
      unfolding replace_dictionary
      replace_dictionary-ensures =
          then_any _ _ (load_dictionary-ensures items down w.owner w.code db) λ o db0 (found, same).
            ensures_at same (
              then_any _ _
                (subst (λ x. Ensures (prepare items down w x) db (λ r d. IsPrepared r.0 r.1 d))
                  (sym found) (prepare-ensures _ refl))
                λ r db1 k.
                  then_any _ _ (insert_items-ensures items down w r.0 0 w.items db1)
                    λ u db2 (rows, types).
                      then_any _ _ (load_dictionary-ensures items down w.owner w.code db2)
                        λ a db3 (read, kept).
                          ensures_at kept (returned r.0 r.1 db1 db2 k rows types a read))
        where
          returned :
              (id : String) (before : Dictionary) (db1 db2 : Db)
              → IsPrepared id before db1
              → db2.dictionary_items ≡ pushed w id w.items db1.dictionary_items
              → db2.dictionary_types ≡ db1.dictionary_types
              → (a : Option Dictionary) → a ≡ dictionary_of items w.owner w.code db2
              → Ensures (reloaded items down before a) db2 (λ r d. IsReplaced r.0 r.1 d)
          returned id before db1 db2 k rows types none read = unfold reloaded in ensures_fail _
          returned id before db1 db2 k rows types (some a) read =
              unfold reloaded in
              let (after, reads, done) = inserted id before db1 db2 k rows types in
              ensures_pure _ (subst (λ x. IsReplaced before x db2) (cc (read ∙ reads)) done)

    -- A committed replacement of a dictionary found nothing under the code where version 0 was
    -- expected, or else the dictionary in the expected version; it returns what was there and what
    -- the database reads from now on: the code and the name asked for, the next version, and the
    -- given items (with those that stood under the id of a new type). The dictionaries of
    -- every other owner are as they were.
    pub replace_dictionary_sound :
        (w : DictionaryWrite) (db : Db) {before after : Dictionary} {db' : Db}
        → within_transaction down (replace_dictionary items down w) db ≡ (ok (before, after), db')
        → IsReplaced w db before after db'
          × ((owner : Option String) (code : String)
              → not_distinct w.owner owner ≡ false
              → dictionary_of items owner code db' ≡ dictionary_of items owner code db)
    replace_dictionary_sound w db {db' = db'} done =
        let k = within_transaction-ensures down _ db (replace_dictionary-ensures w db) done in
        (k, λ owner code apart. dictionary_of-same items owner code db db' (k.others owner apart))
