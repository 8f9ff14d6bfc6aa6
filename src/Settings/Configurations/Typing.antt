-- ===== src/Settings/Configurations/Typing.antt =====
-- The type of a stored value, global or of a tenant: the one that the definition of its key gives.
pub mod Global
use modura.Prelude.{
  String, Bool, true, false, not, ◌&&◌, ◌||◌, Option, none, some, List, ◌∷◌, ◌≡◌, ◌⊎◌, inl, inr,
  refl, ◌+◌, update_where, sym, subst, ap, ◌∙◌, ◌==◌, eq_iff, eq_refl, nat_eq, any, unique, find,
  find_sound, find-cons_self, find-any-false, find-update_found, find-update_other, Bool-cases,
  and-eq-true, eq-true→eq, and-eq-true, eq-true→eq, arith,
}
use modura.Database.{ConfigurationDefinition, ConfigurationValue, Db}
use modura.Database.Constraints.{constraints, not_distinct}
use modura.Database.Constraints.Configurations.{key-fresh}
use modura.Database.Tx.{Faults}
use modura.Database.Tx.Rules.{
  Ensures, ensures_pure, ensures_fail, ensures_if, ensures_at, then_query, then_exec,
  then_exec_held, then_any, weaken,
}
use modura.Audit.Redaction.{Json}
use modura.Settings.Types.{Configuration, ConfigurationWrite, GlobalConfigurationWrite}
use modura.Settings.Values.{valid_value_type}
use modura.Settings.Dictionaries.Reading.{not_distinct_refl}
use modura.Settings.Dictionaries.Reading.{not_distinct→≡}
use modura.Settings.Configurations.{
  is_value_of, value_row, definition_row, find_value, check_overrides, update_global, put_found,
  joined_global, put_global_configuration, put_tenant_configuration,
}
use modura.Settings.Configurations.Overriding.{
  IsOverridden, value_apart, put_tenant_configuration-ensures,
}

abbrev pub find_definition : String → Db → Option ConfigurationDefinition
find_definition key db = find (λ d. d.key == key) db.configuration_definitions

-- The owner and the key of a value are those of another one.
same_place :
    (a owner : Option String) (k key : String)
    → (not_distinct a owner && k == key) ≡ true
    → (owner ≡ a) × (key ≡ k)
same_place a owner k key h =
    let (owned, keyed) = and-eq-true (not_distinct a owner) (k == key) h in
    (not_distinct→≡ a owner owned, sym (eq-true→eq k key keyed))

module _ (decode : String → Option Json) where
  -- A value has the type that its key is defined with.
  abbrev pub IsTyped : Db → String → String → Type 0
  IsTyped db key value =
      (d : ConfigurationDefinition) × (find_definition key db ≡ some d)
      × (valid_value_type decode d.value_type value ≡ true)

  -- Every stored value does, whoever owns it.
  abbrev pub AllTyped : Db → Type 0
  AllTyped db =
      (owner : Option String) (key : String) (v : ConfigurationValue)
      → find_value owner key db ≡ some v
      → IsTyped db key v.value

  -- One value is stored, of the type of its key, and the others keep theirs.
  pub stored-AllTyped :
      (owner : Option String) (key : String) (row : ConfigurationValue) (db db' : Db)
      → find_value owner key db' ≡ some row
      → IsTyped db' key row.value
      → ((o : Option String) (k : String)
          → (not_distinct owner o && key == k) ≡ false
          → find_value o k db' ≡ find_value o k db)
      → ((o : Option String) (k : String) (v : ConfigurationValue)
          → (not_distinct owner o && key == k) ≡ false
          → find_value o k db ≡ some v
          → IsTyped db k v.value
          → IsTyped db' k v.value)
      → AllTyped db
      → AllTyped db'
  stored-AllTyped owner key row db db' read typed same kept before o k v found =
      elim (Bool-cases (not_distinct owner o && key == k)) [
        | inl here ↦
            let (owned, keyed) = same_place owner o key k here in
            let there = rw (owned, keyed) at found in
            let it : row ≡ v = cc in
            subst (λ x. IsTyped db' x v.value) (sym keyed)
              (subst (λ x. IsTyped db' key x.value) it typed)
        | inr other ↦
            let was = sym (same o k other) ∙ found in kept o k v other was (before o k v was)
      ]

  module _ (jsonb : String → String) (down : Faults)
      (definitions : ConfigurationDefinition → ConfigurationDefinition → Bool)
      (stored_type : (value_type value : String)
        → valid_value_type decode value_type value ≡ true
        → valid_value_type decode value_type (jsonb value) ≡ true)
      (db : Db) (before : AllTyped db) where
    pub put_tenant_configuration-AllTyped :
        (w : ConfigurationWrite)
        → Ensures
            (put_tenant_configuration jsonb decode down definitions w)
            db
            (λ r db'. AllTyped db')
    put_tenant_configuration-AllTyped w =
        weaken (put_tenant_configuration-ensures jsonb decode down definitions w db) λ r db' k.
          let found : find_definition w.key db' ≡ some k.definition =
            ap (find (λ d. d.key == w.key)) k.kept ∙ k.defined in
          stored-AllTyped (some w.tenant_id) w.key k.row db db' k.read
            (
              k.definition,
              found,
              subst (λ x. valid_value_type decode k.definition.value_type x ≡ true) (sym k.value)
                  (stored_type _ _ k.typed),
            )
            k.others
            (λ o key v apart was (d, defined, typed).
              (d, ap (find (λ x. x.key == key)) k.kept ∙ defined, typed))
            before
