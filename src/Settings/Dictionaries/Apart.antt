-- ===== src/Settings/Dictionaries/Apart.antt =====
-- A replacement of a dictionary and the other dictionaries of its owner.
use modura.Prelude.{
  String, Bool, true, false, not, ◌&&◌, ◌||◌, Option, none, some, ◌∷◌, ◌≡◌, refl, sym, ap, subst,
  ◌∙◌, ◌==◌, eq_iff, nat_eq, find, find_sound, find-any-false, filter, update_where, unique,
  unique-head, eq_refl, find-same, find-update_alone, filter-delete_where, delete_where,
  and-eq-true, Bool-cases, inl, inr, arith,
}
use modura.Database.{DictionaryType, Db}
use modura.Database.Constraints.{constraints, not_distinct}
use modura.Database.Constraints.Dictionaries.{same_id, ids-unique, same_table-of-owner}
use modura.Errors.{ok}
use modura.Database.Tx.{Faults, within_transaction}
use modura.Database.Tx.Atomic.{within_transaction-ensures}
use modura.Database.Tx.Rules.{
  Ensures, ensures_pure, ensures_fail, ensures_if, ensures_at, then_exec, then_exec_held, then_any,
}
use modura.Database.{DictionaryItemRow}
use modura.Settings.Types.{Dictionary, DictionaryWrite}
use modura.Settings.Dictionaries.{
  is_dictionary, is_type, is_item_of, type_row, with_name, prepare, reloaded, replace_dictionary,
}
use modura.Settings.Dictionaries.Reading.{
  not_distinct→≡, not_distinct_refl, filter-pushed_other, dictionary_of, viewed, pushed,
  dictionary_of-reads, load_dictionary-ensures, insert_items-ensures,
}
use modura.Settings.Dictionaries.Replacing.{IsReplaced, replace_dictionary_sound}

-- Rows of an owner have one table.
same_id-of-owner :
    (owner : Option String) (a b : DictionaryType)
    → not_distinct a.owner owner ≡ true
    → not_distinct b.owner owner ≡ true
    → (a.id == b.id) ≡ true
    → same_id a b ≡ true
same_id-of-owner owner a b h k l = rw (same_table-of-owner a.owner b.owner owner h k, l)

-- The rows with one identifier are one row.
one_row :
    (owner : Option String) (id : String) (x y : DictionaryType)
    → is_type owner id x ≡ true
    → is_type owner id y ≡ true
    → same_id x y ≡ true
one_row owner id x y h k =
    let (xo, xi) = and-eq-true (not_distinct x.owner owner) (x.id == id) h in
    let (yo, yi) = and-eq-true (not_distinct y.owner owner) (y.id == id) k in
    same_id-of-owner owner x y xo yo
      (ground (arith, eq_iff x.id id, eq_iff y.id id, eq_iff x.id y.id))

module _ (w : DictionaryWrite) (code : String) (other : (w.code == code) ≡ false) (db : Db) where
  abbrev found_in : Db → Option DictionaryType
  found_in d = find (is_dictionary w.owner code) d.dictionary_types

  -- The other dictionary's row, with its items, where those of the type `id` are written.
  record IsApart (id : String) (db1 : Db) : Type 0 where
    types : found_in db1 ≡ found_in db
    items :
        (d : DictionaryType)
        → found_in db ≡ some d
        → ((id == d.id) ≡ false)
          × (filter (is_item_of w.owner d.id) db1.dictionary_items
              ≡ filter (is_item_of w.owner d.id) db.dictionary_items)

  of_dictionary :
      (c : String) (d : DictionaryType)
      → is_dictionary w.owner c d ≡ true
      → (not_distinct d.owner w.owner ≡ true) × ((d.code == c) ≡ true)
  of_dictionary c d h = and-eq-true (not_distinct d.owner w.owner) (d.code == c) h

  created :
      constraints (record db { dictionary_types = type_row w ∷ db.dictionary_types }) ≡ true
      → IsApart w.id (record db { dictionary_types = type_row w ∷ db.dictionary_types })
  created held = record {
    types = unfold find in rw (not_distinct_refl w.owner, other);
    items = λ d h.
        let (alone, rest) =
          unique-head same_id (type_row w) db.dictionary_types (ids-unique _ held) in
        let unlike =
          find-any-false (is_dictionary w.owner code) (same_id (type_row w)) db.dictionary_types h
            alone in
        let owned =
          (of_dictionary code d
            (find_sound (is_dictionary w.owner code) db.dictionary_types h)).0 in
        (
          elim (Bool-cases (w.id == d.id)) [
            | inl e ↦ cc (
              same_id-of-owner w.owner (type_row w) d (not_distinct_refl w.owner) owned e,
              unlike,
            )
            | inr e ↦ e
          ],
          refl,
        );
  }

  updated :
      (d : DictionaryType)
      → find (is_dictionary w.owner w.code) db.dictionary_types ≡ some d
      → unique same_id db.dictionary_types ≡ true
      → IsApart d.id (record db {
        dictionary_items = delete_where (is_item_of w.owner d.id) db.dictionary_items;
        dictionary_types = update_where (is_type w.owner d.id) (with_name w) db.dictionary_types;
      })
  updated d h u = record {
    types =
        find-update_alone same_id (is_dictionary w.owner code) (is_dictionary w.owner w.code)
          (is_type w.owner d.id) (with_name w) db.dictionary_types h (rw (owned, eq_refl d.id))
          (rw (owned, uncoded)) u (one_row w.owner d.id) (λ x. refl);
    items = λ e k. (
      ids_apart e k,
      filter-delete_where (is_item_of w.owner e.id) (is_item_of w.owner d.id) db.dictionary_items
          λ y m. item_apart y.owner y.dictionary_type_id e.id (ids_apart e k) m,
    );
  }
    where
      owned : not_distinct d.owner w.owner ≡ true
      owned =
          (of_dictionary w.code d
            (find_sound (is_dictionary w.owner w.code) db.dictionary_types h)).0

      coded : (d.code == w.code) ≡ true
      coded =
          (of_dictionary w.code d
            (find_sound (is_dictionary w.owner w.code) db.dictionary_types h)).1

      uncoded : (d.code == code) ≡ false
      uncoded =
          ground (arith, coded, other, eq_iff d.code w.code, eq_iff d.code code, eq_iff w.code code)

      ids_apart : (e : DictionaryType) → found_in db ≡ some e → (d.id == e.id) ≡ false
      ids_apart e k =
          let (also, read) =
            of_dictionary code e (find_sound (is_dictionary w.owner code) db.dictionary_types k) in
          elim (Bool-cases (d.id == e.id)) [
            | inl l ↦
                let one : d ≡ e =
                  find-same same_id (is_dictionary w.owner w.code) (is_dictionary w.owner code)
                    db.dictionary_types u h k (same_id-of-owner w.owner d e owned also l)
                    (same_id-of-owner w.owner e d also owned
                      (ground (arith, eq_iff d.id e.id, eq_iff e.id d.id))) in
                cc (subst (λ x. (x.code == code) ≡ true) (sym one) read, uncoded)
            | inr l ↦ l
          ]

      item_apart :
          (o : Option String) (t id : String)
          → (d.id == id) ≡ false
          → (not_distinct o w.owner && t == d.id) ≡ true
          → (not_distinct o w.owner && t == id) ≡ false
      item_apart o t id l m = ground (arith, eq_iff t d.id, eq_iff t id, eq_iff d.id id)

  module _ (items : DictionaryItemRow → DictionaryItemRow → Bool) (down : Faults) where
    prepare-IsApart :
        (o : Option DictionaryType)
        → find (is_dictionary w.owner w.code) db.dictionary_types ≡ o
        → Ensures (prepare items down w (viewed items w.owner db o)) db (λ r db1. IsApart r.0 db1)
    unfolding prepare
    prepare-IsApart none h =
        ensures_if (nat_eq w.expected_version 0)
          (λ k. then_exec_held _ _ _ _ _ _ (λ held. ensures_pure _ (created held)))
          (λ k. ensures_fail _)
    prepare-IsApart (some d) h =
        ensures_if (nat_eq w.expected_version 0 || not (nat_eq d.version w.expected_version))
          (λ k. ensures_fail _)
          λ k.
            then_exec_held _ _ _ _ _ _
              λ held. then_exec _ _ _ _ _ _ (ensures_pure _ (updated d h (ids-unique _ held)))

    abbrev Kept : Db → Type 0
    Kept db' = dictionary_of items w.owner code db' ≡ dictionary_of items w.owner code db

    inserted :
        (id : String) (db1 db2 : Db)
        → IsApart id db1
        → db2.dictionary_items ≡ pushed w id w.items db1.dictionary_items
        → db2.dictionary_types ≡ db1.dictionary_types
        → Kept db2
    inserted id db1 db2 k rows types =
        dictionary_of-reads items w.owner code db db2
          (ap (find (is_dictionary w.owner code)) types ∙ k.types)
          λ d h.
            ap (filter (is_item_of w.owner d.id)) rows
            ∙ filter-pushed_other w id w.owner d.id w.items db1.dictionary_items
                (rw (not_distinct_refl w.owner, (k.items d h).0))
            ∙ (k.items d h).1

    pub replace_dictionary-apart :
        Ensures
          (replace_dictionary items down w)
          db
          (λ r db'. dictionary_of items w.owner code db' ≡ dictionary_of items w.owner code db)
    unfolding replace_dictionary
    replace_dictionary-apart =
        then_any _ _ (load_dictionary-ensures items down w.owner w.code db) λ o db0 (found, same).
          ensures_at same (
            then_any _ _
              (subst (λ x. Ensures (prepare items down w x) db (λ r d. IsApart r.0 d)) (sym found)
                (prepare-IsApart _ refl))
              λ r db1 k.
                then_any _ _ (insert_items-ensures items down w r.0 0 w.items db1)
                  λ u db2 (rows, types).
                    then_any _ _ (load_dictionary-ensures items down w.owner w.code db2)
                      λ a db3 (read, still).
                        ensures_at still (returned r.1 a (inserted r.0 db1 db2 k rows types)))
      where
        returned :
            (before : Dictionary) (a : Option Dictionary) {db2 : Db}
            → Kept db2
            → Ensures (reloaded items down before a) db2 (λ r db'. Kept db')
        returned before none kept = unfold reloaded in ensures_fail _
        returned before (some after) kept = unfold reloaded in ensures_pure _ kept

module _ (items : DictionaryItemRow → DictionaryItemRow → Bool) (down : Faults) where
  -- A committed replacement of a dictionary found nothing under the code where version 0 was
  -- expected, or else the dictionary in the expected version; it returns what was there and what
  -- the database reads from now on: the code and the name asked for, the next version, and the
  -- given items, each as often and with each of its fields as it was given, in the order of the
  -- listing (with those that stood under the id of a new type). Every other dictionary, of the same
  -- owner under another code or of another owner, reads as before.
  pub replace_dictionary_exact :
      (w : DictionaryWrite) (db : Db) {before after : Dictionary} {db' : Db}
      → within_transaction down (replace_dictionary items down w) db ≡ (ok (before, after), db')
      → IsReplaced items down w db before after db'
        × ((owner : Option String) (code : String)
            → (not_distinct w.owner owner && w.code == code) ≡ false
            → dictionary_of items owner code db' ≡ dictionary_of items owner code db)
  replace_dictionary_exact w db {before} {after} {db'} done =
      let (k, others) = replace_dictionary_sound items down w db done in
      (
        k,
        λ owner code apart. elim (Bool-cases (not_distinct w.owner owner)) [
          | inl owned ↦
              subst (λ o. dictionary_of items o code db' ≡ dictionary_of items o code db)
                (sym (not_distinct→≡ w.owner owner owned))
                (within_transaction-ensures down _ db
                  (replace_dictionary-apart w code (ground arith) db items down) done)
          | inr other ↦ others owner code other
        ],
      )
