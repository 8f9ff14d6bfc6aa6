-- ===== src/Settings/Configurations/Typing/Global.antt =====
-- The types of values where `PutGlobalConfiguration` defines a key or changes its definition.
use modura.Prelude.{
  String, Bool, true, false, not, ◌&&◌, Option, none, some, ◌∷◌, ◌≡◌, ◌⊎◌, inl, inr, refl, ◌+◌,
  update_where, sym, subst, ◌∙◌, ◌==◌, eq_iff, eq_refl, nat_eq, any, find, find_sound,
  find-cons_self, find-any-false, find-update_found, find-update_other, Bool-cases, eq-true→eq,
  arith,
}
use modura.Database.{ConfigurationDefinition, ConfigurationValue, Db}
use modura.Database.Constraints.{not_distinct}
use modura.Database.Constraints.Configurations.{key-fresh}
use modura.Database.Tx.{Faults}
use modura.Database.Tx.Rules.{
  Ensures, ensures_pure, ensures_fail, ensures_if, ensures_at, then_query, then_exec,
  then_exec_held, then_any,
}
use modura.Audit.Redaction.{Json}
use modura.Settings.Types.{GlobalConfigurationWrite}
use modura.Settings.Values.{valid_value_type}
use modura.Settings.Configurations.{
  is_value_of, value_row, definition_row, find_value, check_overrides, update_global, put_found,
  joined_global, put_global_configuration,
}
use modura.Settings.Configurations.Overriding.{value_apart}
use modura.Settings.Configurations.Typing.{find_definition, IsTyped, AllTyped, stored-AllTyped}

module _ (decode : String → Option Json) (jsonb : String → String) (down : Faults)
    (definitions : ConfigurationDefinition → ConfigurationDefinition → Bool)
    (stored_type : (value_type value : String)
      → valid_value_type decode value_type value ≡ true
      → valid_value_type decode value_type (jsonb value) ≡ true)
    (db : Db) (before : AllTyped decode db) where
  module _ (w : GlobalConfigurationWrite)
      (valid : valid_value_type decode w.value_type w.value ≡ true) where
    abbrev redefined : ConfigurationDefinition → ConfigurationDefinition
    redefined d = record d {
      name = w.name;
      value_type = w.value_type;
      tenant_overridable = w.tenant_overridable;
      updated_at = w.occurred_at;
    }

    abbrev set : ConfigurationValue → ConfigurationValue
    set v = record v { value = jsonb w.value; version = v.version + 1; updated_at = w.occurred_at }

    abbrev updated_db : Db
    updated_db = record db {
      configuration_definitions =
          update_where (λ d. d.key == w.key) redefined db.configuration_definitions;
      configuration_values = update_where (is_value_of none w.key) set db.configuration_values;
    }

    abbrev is_override : ConfigurationValue → Bool
    is_override v = not (not_distinct v.owner none) && v.key == w.key

    -- What the check of a change of type has found.
    abbrev Checked : Bool → Type 0
    Checked same = (same ≡ true) ⊎ (any is_override db.configuration_values ≡ false)

    check_overrides-ensures :
        (same : Bool)
        → Ensures
            (check_overrides jsonb decode down definitions w same)
            db
            (λ u db'. Checked same × (db' ≡ db))
    unfolding check_overrides
    check_overrides-ensures true = ensures_pure _ (inl refl, refl)
    check_overrides-ensures false =
        then_query _ _ _ _ (ensures_if _ (λ e. ensures_fail _) (λ e. ensures_pure _ (inr e, refl)))

    overrides_other :
        (o owner : Option String) (key k : String)
        → (not_distinct none owner && w.key == k) ≡ false
        → (w.key == k) ≡ true
        → (not_distinct o owner && key == k) ≡ true
        → (not (not_distinct o none) && key == w.key) ≡ true
    overrides_other none none key k h e l = ground arith
    overrides_other none (some b) key k h e l = ground arith
    overrides_other (some a) none key k h e l = ground arith
    overrides_other (some a) (some b) key k h e l =
        ground (arith, eq_iff w.key k, eq_iff key k, eq_iff key w.key)

    -- An override keeps the type of its key, or there is none.
    same_key :
        (d : ConfigurationDefinition) (o : Option String) (k : String) (v : ConfigurationValue)
        → find_definition w.key db ≡ some d
        → Checked (d.value_type == w.value_type)
        → (not_distinct none o && w.key == k) ≡ false
        → (w.key == k) ≡ true
        → find_value o k db ≡ some v
        → IsTyped decode db k v.value
        → IsTyped decode updated_db k v.value
    same_key d o k v defined checked apart e was (before_d, found, typed) =
        let it : w.key ≡ k = eq-true→eq w.key k e in
        let read : find_definition k db ≡ some d =
          subst (λ x. find_definition x db ≡ some d) it defined in
        let same : before_d ≡ d = cc (sym found ∙ read) in
        (
          redefined d,
          find-update_found (λ x. x.key == k) (λ x. x.key == w.key) redefined
              db.configuration_definitions read
              (find_sound (λ x. x.key == w.key) db.configuration_definitions defined) (λ y. refl),
          typed_still checked
              (subst (λ x. valid_value_type decode x.value_type v.value ≡ true) same typed),
        )
      where
        typed_still :
            Checked (d.value_type == w.value_type)
            → valid_value_type decode d.value_type v.value ≡ true
            → valid_value_type decode w.value_type v.value ≡ true
        typed_still (inl kept) h =
            subst (λ x. valid_value_type decode x v.value ≡ true)
              (eq-true→eq d.value_type w.value_type kept) h
        typed_still (inr free) h =
            let unlike =
              find-any-false (is_value_of o k) is_override db.configuration_values was free in
            let like =
              overrides_other v.owner o v.key k apart e
                (find_sound (is_value_of o k) db.configuration_values was) in
            cc (sym like ∙ unlike)

    other_key :
        (k value : String)
        → (w.key == k) ≡ false
        → IsTyped decode db k value
        → IsTyped decode updated_db k value
    other_key k value e (d, found, typed) = (
      d,
      find-update_other (λ x. x.key == k) (λ x. x.key == w.key) redefined
            db.configuration_definitions
            (λ x h. ground (arith, eq_iff x.key k, eq_iff x.key w.key, eq_iff w.key k)) (λ x. refl)
          ∙ found,
      typed,
    )

    updated-AllTyped :
        (d : ConfigurationDefinition) (g : ConfigurationValue)
        → find_definition w.key db ≡ some d
        → find_value none w.key db ≡ some g
        → Checked (d.value_type == w.value_type)
        → AllTyped decode updated_db
    updated-AllTyped d g defined valued checked =
        stored-AllTyped decode none w.key (set g) db updated_db
          (find-update_found (is_value_of none w.key) (is_value_of none w.key) set
            db.configuration_values valued
            (find_sound (is_value_of none w.key) db.configuration_values valued) (λ y. refl))
          (
            redefined d,
            find-update_found (λ x. x.key == w.key) (λ x. x.key == w.key) redefined
                db.configuration_definitions defined
                (find_sound (λ x. x.key == w.key) db.configuration_definitions defined) (λ y. refl),
            stored_type _ _ valid,
          )
          (λ o k apart.
            find-update_other (is_value_of o k) (is_value_of none w.key) set db.configuration_values
              (λ y m. value_apart none o w.key k y apart m) (λ y. refl))
          (λ o k v apart was typed. elim (Bool-cases (w.key == k)) [
            | inl e ↦ same_key d o k v defined checked apart e was typed
            | inr e ↦ other_key k v.value e typed
          ])
          before

    abbrev created_db : Db
    created_db = record db {
      configuration_definitions = definition_row w ∷ db.configuration_definitions;
      configuration_values =
          value_row none w.key (jsonb w.value) w.occurred_at ∷ db.configuration_values;
    }

    created-AllTyped :
        any (λ b. w.key == b.key) db.configuration_definitions ≡ false → AllTyped decode created_db
    created-AllTyped fresh =
        stored-AllTyped decode none w.key (value_row none w.key (jsonb w.value) w.occurred_at) db
          created_db
          (find-cons_self (is_value_of none w.key) db.configuration_values (eq_refl w.key))
          (
            definition_row w,
            find-cons_self (λ x. x.key == w.key) db.configuration_definitions (eq_refl w.key),
            stored_type _ _ valid,
          )
          (λ o k apart. unfold find in rw apart)
          (λ o k v apart was (d, found, typed). (d, later k d found, typed)) before
      where
        later :
            (k : String) (d : ConfigurationDefinition)
            → find_definition k db ≡ some d
            → find_definition k created_db ≡ some d
        later k d found =
            let e : (w.key == k) ≡ false = ground (
              arith,
              find-any-false (λ x. x.key == k) (λ b. w.key == b.key) db.configuration_definitions
                  found fresh,
              find_sound (λ x. x.key == k) db.configuration_definitions found,
              eq_iff w.key d.key,
              eq_iff w.key k,
              eq_iff d.key k,
            ) in
            unfold find in rw e found

    created-ensures :
        Ensures (put_found jsonb decode down definitions w none) db (λ r db'. AllTyped decode db')
    unfolding put_found
    created-ensures =
        ensures_if (not (nat_eq w.expected_version 0)) (λ e. ensures_fail _)
          λ e. then_exec_held _ _ _ _ _ _ λ held. then_exec _ _ _ _ _ _ (
            ensures_pure _ (
              created-AllTyped
                (key-fresh _ (definition_row w) db.configuration_definitions held refl)))

    found-ensures :
        (d : ConfigurationDefinition) (g : ConfigurationValue)
        → find_definition w.key db ≡ some d
        → find_value none w.key db ≡ some g
        → Ensures
            (put_found jsonb decode down definitions w
              (joined_global jsonb decode down definitions (some d) (some g)))
            db
            (λ r db'. AllTyped decode db')
    unfolding put_found update_global
    found-ensures d g defined valued =
        ensures_if (not (nat_eq g.version w.expected_version)) (λ e. ensures_fail _)
          λ e.
            then_any _ _ (check_overrides-ensures (d.value_type == w.value_type))
              λ u db1 (checked, same). ensures_at same (
                then_exec _ _ _ _ _ _ (
                  then_exec _ _ _ _ _ _
                    (ensures_pure _ (updated-AllTyped d g defined valued checked))))

    joined-ensures :
        (od : Option ConfigurationDefinition) (og : Option ConfigurationValue)
        → find_definition w.key db ≡ od
        → find_value none w.key db ≡ og
        → Ensures
            (put_found jsonb decode down definitions w
              (joined_global jsonb decode down definitions od og))
            db
            (λ r db'. AllTyped decode db')
    joined-ensures (some d) (some g) h k = found-ensures d g h k
    joined-ensures none og h k = created-ensures
    joined-ensures (some d) none h k = created-ensures

  pub put_global_configuration-AllTyped :
      (w : GlobalConfigurationWrite)
      → valid_value_type decode w.value_type w.value ≡ true
      → Ensures
          (put_global_configuration jsonb decode down definitions w)
          db
          (λ r db'. AllTyped decode db')
  unfolding put_global_configuration
  put_global_configuration-AllTyped w valid =
      then_query _ _ _ _ (joined-ensures w valid _ _ refl refl)
