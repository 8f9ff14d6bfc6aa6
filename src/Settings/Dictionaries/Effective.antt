-- ===== src/Settings/Dictionaries/Effective.antt =====
-- `ListEffectiveDictionaries`: a tenant's dictionaries take the place of the global ones.
use modura.Prelude.{
  ℕ, suc, String, Bool, true, false, not, ◌&&◌, ◌||◌, Option, none, some, List, [], ◌∷◌, ◌++◌, ◌≡◌,
  refl, ap, ◌∙◌, ◌==◌, eq_iff, any, filter, map, any-append, any-filter, any-insertion_sort,
  any-false, arith,
}
use modura.Errors.{Result, ok, err}
use modura.Database.{DictionaryType, DictionaryItemRow, Db}
use modura.Database.Constraints.{not_distinct}
use modura.Database.Tx.{Faults}
use modura.Database.Tx.Rules.{Ensures, ensures_pure, ensures_at, then_query, then_any}
use modura.Database.Tx.Runs.{run-ensures}
use modura.Settings.Types.{Dictionary, source_of}
use modura.Settings.Dictionaries.{
  is_dictionary, items_of, dictionary_view, with_all_items, effective_types,
  list_effective_dictionaries,
}

any-map {ℓ κ} :
    {A : Type ℓ} {B : Type κ} (q : B → Bool) (f : A → B) (xs : List A)
    → any q (map f xs) ≡ any (λ x. q (f x)) xs
any-map q f [] = refl
any-map q f (x ∷ xs) = ap (λ b. q (f x) || b) (any-map q f xs)

module _ (items : DictionaryItemRow → DictionaryItemRow → Bool) (down : Faults) where
  abbrev pub shown_row : Db → DictionaryType → Dictionary
  shown_row db d = dictionary_view items d.owner d (items_of items d.owner d.id db)

  with_all_items-ensures :
      (label : String) (round : ℕ) (rows : List DictionaryType) (db : Db)
      → Ensures
          (with_all_items items down label round rows)
          db
          (λ ds db'. (ds ≡ map (shown_row db) rows) × (db' ≡ db))
  unfolding with_all_items
  with_all_items-ensures label round [] db = ensures_pure _ (refl, refl)
  with_all_items-ensures label round (d ∷ rows) db = then_query _ _ _ _ (
      then_any _ _ (with_all_items-ensures label (suc round) rows db) λ rest db1 (read, same).
        ensures_at same (ensures_pure _ (ap (λ l. shown_row db d ∷ l) read, refl)))

  module _ (types : DictionaryType → DictionaryType → Bool) (tenant : String) (db : Db) where
    -- A dictionary of the tenant for which `q` holds, or a global one under a code of which the
    -- tenant has none.
    abbrev pub effective_any : (Dictionary → Bool) → Bool
    effective_any q =
        any (λ d. not_distinct d.owner (some tenant) && q (shown_row db d)) db.dictionary_types
        || any
            (λ g.
              (not_distinct g.owner none
                && not (any (is_dictionary (some tenant) g.code) db.dictionary_types))
              && q (shown_row db g))
            db.dictionary_types

    effective_types-any :
        (q : Dictionary → Bool)
        → any q (map (shown_row db) (effective_types items down types tenant db)) ≡ effective_any q
    unfolding effective_types
    effective_types-any q =
        let own = λ (d : DictionaryType). not_distinct d.owner (some tenant) in
        let global = λ (g : DictionaryType).
          not_distinct g.owner none
          && not (any (is_dictionary (some tenant) g.code) db.dictionary_types) in
        let shown = λ (d : DictionaryType). q (shown_row db d) in
        any-map q (shown_row db) (effective_types items down types tenant db)
        ∙ any-insertion_sort types shown
            (filter own db.dictionary_types ++ filter global db.dictionary_types)
        ∙ any-append shown (filter own db.dictionary_types) (filter global db.dictionary_types)
        ∙ rw (any-filter own shown db.dictionary_types, any-filter global shown db.dictionary_types)

    no_own_shadowed :
        (code : String)
        → any (is_dictionary (some tenant) code) db.dictionary_types ≡ true
        → effective_any (λ d. d.code == code && d.source == "global") ≡ false
    no_own_shadowed code h =
        rw
          (any-false
            (λ (d : DictionaryType).
              not_distinct d.owner (some tenant)
              && ((shown_row db d).code == code && (shown_row db d).source == "global"))
            db.dictionary_types (λ d. own d.owner d.code))
          (any-false _ db.dictionary_types (λ g. under g.owner g.code _))
      where
        own :
            (owner : Option String) (c : String)
            → (not_distinct owner (some tenant) && (c == code && source_of owner == "global"))
              ≡ false
        own none c = refl
        own (some t) c = ground arith

        under :
            (owner : Option String) (c : String) (s : Bool)
            → ((not_distinct owner none
                  && not (any (is_dictionary (some tenant) c) db.dictionary_types))
                && (c == code && s))
              ≡ false
        under owner c s = ground (arith, eq_iff c code)

    -- The listing shows exactly the tenant's own dictionaries and the global ones of whose code it has
    -- none, each with its items, whatever is asked of a dictionary; in particular no global dictionary
    -- under a code that the tenant has taken. It changes nothing.
    pub list_effective_dictionaries_exact :
        {ds : List Dictionary} {db' : Db}
        → list_effective_dictionaries items down types tenant db ≡ (ok ds, db')
        → (db' ≡ db)
          × ((q : Dictionary → Bool) → any q ds ≡ effective_any q)
          × ((code : String)
              → any (is_dictionary (some tenant) code) db.dictionary_types ≡ true
              → any (λ d. d.code == code && d.source == "global") ds ≡ false)
    unfolding list_effective_dictionaries
    list_effective_dictionaries_exact {ds} {db'} done =
        let (same, read) = listed in
        let exact : (q : Dictionary → Bool) → any q ds ≡ effective_any q =
          λ q. ap (any q) read ∙ effective_types-any q in
        (same, exact, λ code h. exact _ ∙ no_own_shadowed code h)
      where
        Listed : Result (List Dictionary) → Db → Type 0
        Listed (err e) d = Unit
        Listed (ok l) d =
            (d ≡ db) × (l ≡ map (shown_row db) (effective_types items down types tenant db))

        listed : (db' ≡ db) × (ds ≡ map (shown_row db) (effective_types items down types tenant db))
        listed =
            run-ensures {P = Listed}
              (then_query _ _ _ _ (
                then_any _ _ (with_all_items-ensures _ _ _ db)
                  λ l d (read, same). ensures_at same (ensures_pure _ (refl, read))))
              done
