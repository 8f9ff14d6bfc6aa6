-- ===== src/Settings/Configurations/Overriding.antt =====
-- What `PutTenantConfiguration` has checked and what it leaves.
use modura.Prelude.{
  ◌+◌, String, Bool, true, false, not, ◌&&◌, Option, none, some, ◌∷◌, ◌≡◌, refl, sym, subst, ◌==◌,
  eq_iff, eq_refl, nat_eq, find, find_sound, find-cons_self, find-update_found, find-update_other,
  arith, eq-true→eq, and-eq-true, Bool-cases, inl, inr,
}
use modura.Errors.{ok}
use modura.Database.{ConfigurationDefinition, ConfigurationValue, Db}
use modura.Database.Constraints.{not_distinct}
use modura.Database.Tx.{Faults, within_transaction}
use modura.Database.Tx.Atomic.{within_transaction-ensures}
use modura.Database.Tx.Rules.{
  Ensures, ensures_pure, ensures_fail, ensures_if, then_query, then_exec, then_any,
}
use modura.Audit.Redaction.{Json}
use modura.Settings.Types.{Configuration, ConfigurationWrite}
use modura.Settings.Values.{valid_value_type}
use modura.Settings.Dictionaries.Reading.{not_distinct-apart}
use modura.Settings.Configurations.{
  is_value_of, value_row, find_value, override_of, tenant_view, store_value, override_defined,
  put_tenant_configuration,
}

-- A value of one owner and key is none of another owner's or another key.
pub value_apart :
    (a owner : Option String) (k key : String) (v : ConfigurationValue)
    → (not_distinct a owner && k == key) ≡ false
    → is_value_of a k v ≡ true
    → is_value_of owner key v ≡ false
value_apart a owner k key v apart here = elim (Bool-cases (not_distinct a owner)) [
  | inl same ↦ ground (arith, eq_iff v.key k, eq_iff k key, eq_iff v.key key)
  | inr other ↦
      let (owned, keyed) = and-eq-true (not_distinct v.owner a) (v.key == k) here in
      rw (not_distinct-apart v.owner a owner owned other)
]

module _ (jsonb : String → String) (decode : String → Option Json) (down : Faults)
    (definitions : ConfigurationDefinition → ConfigurationDefinition → Bool)
    (w : ConfigurationWrite) (db : Db) where
  -- The row that an override has afterwards, and the values that stay.
  record IsStored (found : Option ConfigurationValue) (db' : Db) : Type 0 where
    row : ConfigurationValue
    read : find_value (some w.tenant_id) w.key db' ≡ some row
    value : row.value ≡ jsonb w.value
    version : row.version ≡ w.expected_version + 1
    kept : db'.configuration_definitions ≡ db.configuration_definitions
    others :
        (owner : Option String) (key : String)
        → (not_distinct (some w.tenant_id) owner && w.key == key) ≡ false
        → find_value owner key db' ≡ find_value owner key db

  -- Nothing is stored and version 0 is expected, or the expected version is.
  abbrev pub HasVersion : Option ConfigurationValue → Type 0
  HasVersion none = w.expected_version ≡ 0
  HasVersion (some v) = v.version ≡ w.expected_version

  insert_other :
      (owner : Option String) (key : String)
      → (not_distinct (some w.tenant_id) owner && w.key == key) ≡ false
      → find (is_value_of owner key) (
          value_row (some w.tenant_id) w.key (jsonb w.value) w.occurred_at
          ∷ db.configuration_values)
        ≡ find_value owner key db
  unfolding find
  insert_other owner key apart = rw apart

  override_of_stored :
      (d : ConfigurationDefinition) (row : ConfigurationValue) (db' : Db)
      → d.tenant_overridable ≡ true
      → d.key ≡ w.key
      → find_value (some w.tenant_id) w.key db' ≡ some row
      → override_of w.tenant_id d db' ≡ some row
  override_of_stored d row db' allowed same read =
      rw allowed (subst (λ k. find_value (some w.tenant_id) k db' ≡ some row) (sym same) read)

  store_value-ensures :
      (d : ConfigurationDefinition) (o : Option ConfigurationValue)
      → find_value (some w.tenant_id) w.key db ≡ o
      → Ensures
          (store_value jsonb decode down definitions w d o)
          db
          (λ before db'. HasVersion o × IsStored o db')
  unfolding store_value
  store_value-ensures d none h =
      ensures_if (not (nat_eq w.expected_version 0)) (λ k. ensures_fail _)
        λ k. then_exec _ _ _ _ _ _ (
          ensures_pure _ (
            ground arith,
            record {
              row = value_row (some w.tenant_id) w.key (jsonb w.value) w.occurred_at;
              read =
                  find-cons_self (is_value_of (some w.tenant_id) w.key) db.configuration_values
                    (rw (eq_refl w.tenant_id) (eq_refl w.key));
              value = refl;
              version = ground arith;
              kept = refl;
              others = insert_other;
            },
          ))
  store_value-ensures d (some v) h =
      ensures_if (not (nat_eq v.version w.expected_version)) (λ k. ensures_fail _)
        λ k. then_exec _ _ _ _ _ _ (
          ensures_pure _ (
            ground arith,
            record {
              row = record v {
                value = jsonb w.value;
                version = v.version + 1;
                updated_at = w.occurred_at;
              };
              read =
                  find-update_found (is_value_of (some w.tenant_id) w.key)
                    (is_value_of (some w.tenant_id) w.key) _ db.configuration_values h
                    (find_sound (is_value_of (some w.tenant_id) w.key) db.configuration_values h)
                    (λ y. refl);
              value = refl;
              version = ground arith;
              kept = refl;
              others = λ owner key apart.
                  find-update_other (is_value_of owner key) (is_value_of (some w.tenant_id) w.key) _
                    db.configuration_values
                    (λ y m. value_apart (some w.tenant_id) owner w.key key y apart m) (λ y. refl);
            },
          ))

  -- What a successful override has read, and what the database reads afterwards.
  pub record IsOverridden (before after : Configuration) (db' : Db) : Type 0 where
    pub definition : ConfigurationDefinition
    pub defined : find (λ d. d.key == w.key) db.configuration_definitions ≡ some definition
    pub overridable : definition.tenant_overridable ≡ true
    pub typed : valid_value_type decode definition.value_type w.value ≡ true
    pub versioned : HasVersion (find_value (some w.tenant_id) w.key db)
    pub returned :
        after
        ≡ tenant_view jsonb decode down definitions definition (w.expected_version + 1) w.value
    pub row : ConfigurationValue
    pub read : find_value (some w.tenant_id) w.key db' ≡ some row
    pub kept : db'.configuration_definitions ≡ db.configuration_definitions
    pub effective : override_of w.tenant_id definition db' ≡ some row
    pub value : row.value ≡ jsonb w.value
    pub version : row.version ≡ w.expected_version + 1
    pub others :
        (owner : Option String) (key : String)
        → (not_distinct (some w.tenant_id) owner && w.key == key) ≡ false
        → find_value owner key db' ≡ find_value owner key db

  override_defined-ensures :
      (o : Option ConfigurationDefinition)
      → find (λ d. d.key == w.key) db.configuration_definitions ≡ o
      → Ensures
          (override_defined jsonb decode down definitions w o)
          db
          (λ r db'. IsOverridden r.0 r.1 db')
  unfolding override_defined
  override_defined-ensures none h = ensures_fail _
  override_defined-ensures (some d) h =
      ensures_if (not d.tenant_overridable) (λ k. ensures_fail _)
        λ k.
          ensures_if (not (valid_value_type decode d.value_type w.value)) (λ l. ensures_fail _)
            λ l. then_query _ _ _ _ (
              then_any _ _ (store_value-ensures d _ refl) λ b db1 (m, stored).
                ensures_pure _ (record {
                  definition = d;
                  defined = h;
                  overridable = ground arith;
                  typed = ground arith;
                  versioned = m;
                  returned = refl;
                  row = stored.row;
                  read = stored.read;
                  kept = stored.kept;
                  effective =
                      override_of_stored d stored.row db1 (ground arith)
                        (eq-true→eq d.key w.key (find_sound _ db.configuration_definitions h))
                        stored.read;
                  value = stored.value;
                  version = stored.version;
                  others = stored.others;
                }))

  pub put_tenant_configuration-ensures :
      Ensures
        (put_tenant_configuration jsonb decode down definitions w)
        db
        (λ r db'. IsOverridden r.0 r.1 db')
  unfolding put_tenant_configuration
  put_tenant_configuration-ensures = then_query _ _ _ _ (override_defined-ensures _ refl)

  -- A committed override was of a defined key that tenants may override, with a value of the defined
  -- type, over the expected version (none where 0 is expected). It returns the value with the next
  -- version, which is also what the tenant's listing joins from then on, in the form in which
  -- PostgreSQL stores it; and every other value, of another tenant, another key or global, stays.
  pub put_tenant_configuration_sound :
      {before after : Configuration} {db' : Db}
      → within_transaction down (put_tenant_configuration jsonb decode down definitions w) db
        ≡ (ok (before, after), db')
      → IsOverridden before after db'
  put_tenant_configuration_sound done =
      within_transaction-ensures down _ db put_tenant_configuration-ensures done
