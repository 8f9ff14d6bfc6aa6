-- ===== src/Settings/Service/Writes.antt =====
-- The writes of dictionaries by the settings service: what they have validated and what they leave.
use Prim.Native.String.{len}
use modura.Prelude.{
  ℕ, suc, String, Char, Bool, true, false, not, ◌&&◌, ◌||◌, Option, some, List, [], ◌∷◌, ◌≡◌, refl,
  subst, ◌∙◌, blank, length, ltb, contains, arith, Bool-cases, inl, inr,
}
use modura.Errors.{Result, ok, err, wrapped}
use modura.Text.{trim_space}
use modura.Database.{Db}
use modura.Database.Tx.{Faults, labelled_call, within_transaction}
use modura.Database.Tx.Rules.{
  Ensures, ensures_pure, ensures_from_result, ensures_at, then_any, weaken,
}
use modura.Database.Tx.Runs.{labelled_call-ok}
use modura.Database.Tx.Atomic.{within_transaction-ensures}
use modura.Database.Tx.Calls.{and_then-ok, lifted-ok, refused-not_ok}
use modura.Audit.Redaction.{Json}
use modura.Audit.Writing.{IsRecorded, record_tenant_write-ensures}
use modura.Audit.Writing.Evidence.{IsEvidence, recorded-IsEvidence}
use modura.Settings.Types.{DictionaryItem, Dictionary, WriteContext, DictionaryWrite}
use modura.Settings.Values.{stable_code}
use modura.Settings.Dictionaries.Replacing.{IsReplaced, replace_dictionary-ensures}
use modura.Settings.Service.{
  SettingsMarshal, SettingsOrders, valid_write, tenant_event, normalized, bad_item, bad_dictionary,
  dictionary_write, check_items, after_id, with_id, audit, replacing, replace_dictionary,
}

-- Items that a dictionary may have: codes of the right form, none twice and none in `seen`.
abbrev pub well_formed : List String → List DictionaryItem → Bool
well_formed seen [] = true
well_formed seen (i ∷ is) =
    stable_code i.code
    && not (blank i.label)
    && not (contains i.code seen)
    && well_formed (i.code ∷ seen) is

all_passed :
    (a b c d e : Bool)
    → (not a || (not b || c || d || e)) ≡ false
    → (a ≡ true) × (b ≡ true) × (c ≡ false)
all_passed a b c d e h = (ground arith, ground arith, ground arith)

module _ (lower : Char → Char) (new_id : ℕ → ℕ → Result String) (now : ℕ) where
  check_items_sound :
      (seen : List String) (k : ℕ) (is : List DictionaryItem) {out : List DictionaryItem}
      → check_items lower new_id now seen k is ≡ ok out
      → (well_formed seen out ≡ true) × (length out ≡ length is)
  unfolding check_items
  check_items_sound seen k [] {out} h =
      subst (λ l. (well_formed seen l ≡ true) × (length l ≡ 0)) (let e : [] ≡ out = cc h in e)
        (refl, refl)
  check_items_sound seen k (i ∷ is) {out} h =
      elim (Bool-cases (bad_item (normalized lower i.code) (trim_space i.label))) [
        | inl bad ↦ cc (rw bad at h)
        | inr good ↦ elim (Bool-cases (contains (normalized lower i.code) seen)) [
          | inl twice ↦ cc (rw (good, twice) at h)
          | inr once ↦
              identified (wrapped "generate dictionary item ID" (new_id (suc k) now)) _
                (λ m e. check_items_sound (normalized lower i.code ∷ seen) (suc k) is {out = m} e)
                good once (rw (good, once) at h)
        ]
      ]
    where
      identified :
          (r : Result String) (rest : Result (List DictionaryItem))
          → ((m : List DictionaryItem)
              → rest ≡ ok m
              → (well_formed (normalized lower i.code ∷ seen) m ≡ true) × (length m ≡ length is))
          → bad_item (normalized lower i.code) (trim_space i.label) ≡ false
          → contains (normalized lower i.code) seen ≡ false
          → after_id lower new_id now i r rest ≡ ok out
          → (well_formed seen out ≡ true) × (length out ≡ suc (length is))
      identified (err x) rest e good once g = unfold after_id in cc g
      identified (ok id) (err x) e good once g = unfold after_id in cc g
      identified (ok id) (ok more) ih good once g =
          let (formed, counted) = ih more refl in
          subst (λ l. (well_formed seen l ≡ true) × (length l ≡ suc (length is)))
            (let e : with_id lower new_id now i id ∷ more ≡ out = unfold after_id in cc g in e)
            (ground arith, ground arith)

module _ (lower : Char → Char) (marshal : SettingsMarshal) (jsonb : String → String)
    (decode : String → Option Json) (valid_json : String → Bool) (new_event_id : ℕ → Result String)
    (new_id : ℕ → ℕ → Result String) (down : Faults) (orders : SettingsOrders) (now : ℕ) where
  -- The store's replacement and, on top of it, one event that holds both states.
  pub record IsWritten (w : WriteContext) (desired : DictionaryWrite) (db : Db) (after : Dictionary)
      (db' : Db) : Type 0 where
    pub between : Db
    pub before : Dictionary
    pub replaced : IsReplaced orders.items down desired db before after between
    pub before_json : String
    pub after_json : String
    pub before_encoded : marshal.dictionary before ≡ ok before_json
    pub after_encoded : marshal.dictionary after ≡ ok after_json
    pub evidence :
        IsEvidence
          (record {
            actor = w.actor.user_id;
            tenant = w.actor.tenant_id;
            action = "settings.dictionary.replaced";
            resource = "dictionary";
            resource_id = after.id;
            correlation = w.correlation_id;
            at = now;
            before_state = before_json;
            after_state = after_json;
          })
          between
          db'

  pub audit-ensures :
      (w : WriteContext) (action resource id : String) (before after : Result String) (db : Db)
      → Ensures
          (audit lower marshal jsonb decode valid_json new_event_id new_id down orders now w action
            resource id before after)
          db
          (λ u db'.
            (b : String) × (a : String) × (before ≡ ok b)
            × (after ≡ ok a)
            × IsRecorded (tenant_event w now action resource id b a) db db')
  unfolding audit
  audit-ensures w action resource id before after db =
      then_any _ _ (ensures_from_result before) λ b d1 (first, same1). ensures_at same1 (
        then_any _ _ (ensures_from_result after) λ a d2 (second, same2). ensures_at same2 (
          weaken
            (record_tenant_write-ensures valid_json new_event_id down
              (tenant_event w now action resource id b a) db)
            λ u d3 recorded. (b, a, first, second, recorded)))

  replacing-ensures :
      (w : WriteContext) (desired : DictionaryWrite) (db : Db)
      → Ensures
          (replacing lower marshal jsonb decode valid_json new_event_id new_id down orders now
            desired
            (audit lower marshal jsonb decode valid_json new_event_id new_id down orders now w
              "settings.dictionary.replaced" "dictionary"))
          db
          (IsWritten w desired db)
  unfolding replacing
  replacing-ensures w desired db =
      then_any _ _ (replace_dictionary-ensures orders.items down desired db) λ done d1 replaced.
        then_any _ _ (audit-ensures w _ _ _ _ _ d1) λ u d2 (b, a, first, second, recorded).
          ensures_pure _ (record {
            between = d1;
            before = done.0;
            replaced = replaced;
            before_json = b;
            after_json = a;
            before_encoded = first;
            after_encoded = second;
            evidence = recorded-IsEvidence _ now d1 d2 refl recorded;
          })

  committed :
      (w : WriteContext) (desired : DictionaryWrite) (db d : Db) {after : Dictionary} {db' : Db}
      → d ≡ db
      → labelled_call "replace dictionary"
          (within_transaction down (
            replacing lower marshal jsonb decode valid_json new_event_id new_id down orders now
              desired
              (audit lower marshal jsonb decode valid_json new_event_id new_id down orders now w
                "settings.dictionary.replaced" "dictionary")))
          d
        ≡ (ok after, db')
      → IsWritten w desired db after db'
  committed w desired db d {after} {db'} same h =
      subst (λ x. IsWritten w desired x after db') same
        (within_transaction-ensures down _ d (replacing-ensures w desired d)
          (labelled_call-ok "replace dictionary" _ d h))

  -- A replacement of a tenant's dictionary that the service reports as done was asked for in a valid
  -- write context, under a code of the stable form with a name; the items that it stores are as many
  -- as were given, each with a label and a code of the stable form, no code twice; and it leaves the
  -- store's replacement for the actor's tenant with one event that holds the states before and after.
  pub replace_dictionary_audited :
      (w : WriteContext) (code name : String) (expected : ℕ) (items : List DictionaryItem) (db : Db)
      {after : Dictionary} {db' : Db}
      → replace_dictionary lower marshal jsonb decode valid_json new_event_id new_id down orders now
          w code name expected items db
        ≡ (ok after, db')
      → (valid_write w ≡ true)
        × (stable_code (normalized lower code) ≡ true)
        × (blank (trim_space name) ≡ false)
        × ((id : String) × (checked : List DictionaryItem) × (well_formed [] checked ≡ true)
            × (length checked ≡ length items)
            × IsWritten w
                (dictionary_write lower marshal jsonb decode valid_json new_event_id new_id down
                  orders now
                  (some w.actor.tenant_id)
                  (normalized lower code)
                  (trim_space name)
                  expected
                  id
                  checked)
                db
                after
                db')
  unfolding replace_dictionary
  replace_dictionary_audited w code name expected items db {after} {db'} h =
      elim (Bool-cases (
        not (valid_write w)
        || bad_dictionary lower marshal jsonb decode valid_json new_event_id new_id down orders now
            (normalized lower code) (trim_space name) items)) [
              | inl e ↦ absurd (refused-not_ok _ db (rw e at h))
              | inr e ↦
                  let (id, d1, identified, rest) = and_then-ok _ _ db (rw e at h) in
                  let (_, same1) = lifted-ok _ db (labelled_call-ok _ _ db identified) in
                  let (checked, d2, valid, last) = and_then-ok _ _ d1 rest in
                  let (passed, same2) = lifted-ok _ d1 valid in
                  let (formed, counted) = check_items_sound lower new_id now [] 0 items passed in
                  let (authentic, stable, named) =
                    all_passed (valid_write w) (stable_code (normalized lower code))
                      (blank (trim_space name)) (ltb 128 (len (trim_space name)))
                      (ltb 500 (length items)) e in
                  (
                    authentic,
                    stable,
                    named,
                    (id, checked, formed, counted, committed w _ db d2 (same2 ∙ same1) last),
                  )
            ]
