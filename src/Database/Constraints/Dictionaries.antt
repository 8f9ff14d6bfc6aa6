-- ===== src/Database/Constraints/Dictionaries.antt =====
-- What the constraints say of dictionaries: no two types of a table have the same identifier.
use modura.Prelude.{Option, Bool, true, some, none, ◌&&◌, String, ◌≡◌, refl, ◌==◌, unique, arith}
use modura.Database.{DictionaryType, Db}
use modura.Database.Constraints.{constraints, dictionaries_hold, not_distinct, same_table}

abbrev pub same_id : DictionaryType → DictionaryType → Bool
same_id a b = same_table a.owner b.owner && a.id == b.id

dictionaries-of-constraints : (db : Db) → constraints db ≡ true → dictionaries_hold db ≡ true
unfolding constraints
dictionaries-of-constraints db h = ground arith

ids-of-dictionaries :
    (db : Db) → dictionaries_hold db ≡ true → unique same_id db.dictionary_types ≡ true
unfolding dictionaries_hold
ids-of-dictionaries db h = ground arith

pub ids-unique : (db : Db) → constraints db ≡ true → unique same_id db.dictionary_types ≡ true
ids-unique db h = ids-of-dictionaries db (dictionaries-of-constraints db h)

-- Two owners of which each is the given one have the same table.
pub same_table-of-owner :
    (a b owner : Option String)
    → not_distinct a owner ≡ true
    → not_distinct b owner ≡ true
    → same_table a b ≡ true
same_table-of-owner none none owner h k = refl
same_table-of-owner (some a) (some b) owner h k = refl
same_table-of-owner none (some b) none h k = cc
same_table-of-owner none (some b) (some c) h k = cc
same_table-of-owner (some a) none none h k = cc
same_table-of-owner (some a) none (some c) h k = cc
