-- ===== src/Settings/Dictionaries/Versions.antt =====
-- The versions of dictionaries over committed writes, in backend/internal/modules/settings/postgres/
-- store.go.
use modura.Prelude.{
  ℕ, ◌+◌, ◌<◌, ◌≤◌, String, Bool, Option, none, some, ◌≡◌, sym, subst, ◌∙◌, ◌==◌, Bool-cases,
  nat_eq, ◌&&◌, and-eq-true, eq-true→eq, inl, inr, arith,
}
use mathlib.Core.Path.{subst₂}
use mathlib.Core.Option.{some-injective, none-ne-some}
use modura.Errors.{ok}
use modura.Database.{DictionaryItemRow, Db}
use modura.Database.Constraints.{not_distinct}
use modura.Database.Tx.{Faults, within_transaction}
use modura.Database.Tx.Atomic.{within_transaction-ensures}
use modura.Database.Tx.Rules.{Ensures, ensures_pure, ensures_fail, ensures_if, then_any, then_exec}
use modura.Settings.Types.{Dictionary, DictionaryWrite}
use modura.Settings.Dictionaries.{delete_matching, replace_dictionary, delete_tenant_dictionary}
use modura.Settings.Dictionaries.Reading.{load_dictionary-ensures, not_distinct→≡, dictionary_of}
use modura.Settings.Dictionaries.Replacing.{IsReplaced}
use modura.Settings.Dictionaries.Apart.{replace_dictionary_exact}

module _ (items : DictionaryItemRow → DictionaryItemRow → Bool) where
  -- Replacements that are committed, from one database to another.
  pub data Replacements (db : Db) : Db → Type 0 where
    start : Replacements db db
    next :
        {db1 db2 : Db} {r : Dictionary × Dictionary} (down : Faults) (w : DictionaryWrite)
        → Replacements db db1
        → within_transaction down (replace_dictionary items down w) db1 ≡ (ok r, db2)
        → Replacements db db2

  -- The dictionary is there, in a version after this one.
  abbrev IsAfter : ℕ → Option String → String → Db → Type 0
  IsAfter v owner code db =
      (d : Dictionary) × (dictionary_of items owner code db ≡ some d) × (v < d.version)

  -- A replacement of the dictionary itself expects the version that is there.
  expected-there :
      {w : DictionaryWrite} {db db' : Db} {before after d : Dictionary} {down : Faults}
      → IsReplaced items down w db before after db'
      → dictionary_of items w.owner w.code db ≡ some d
      → d.version ≡ w.expected_version
  expected-there {w = w} {d = d} k found = elim k.prior [
    | inl (missing, _, _, _, _) ↦ absurd (none-ne-some _ (sym missing ∙ found))
    | inr (there, expected, _, _) ↦
        subst (λ x. x.version ≡ w.expected_version) (some-injective _ _ (sym there ∙ found))
          expected
  ]

  module _ (v : ℕ) (owner : Option String) (code : String) where
    replaced-IsAfter :
        (w : DictionaryWrite) (db : Db) {r : Dictionary × Dictionary} {db' : Db} (down : Faults)
        → within_transaction down (replace_dictionary items down w) db ≡ (ok r, db')
        → IsAfter v owner code db
        → IsAfter v owner code db'
    replaced-IsAfter w db {r} {db'} down done (d, found, later) =
        let (k, others) =
          replace_dictionary_exact items down w db {before = r.0} {after = r.1} done in
        elim (Bool-cases (not_distinct w.owner owner && w.code == code)) [
          | inl here ↦
              let (owned, coded) = and-eq-true (not_distinct w.owner owner) (w.code == code) here in
              let o = not_distinct→≡ w.owner owner owned in
              let c = sym (eq-true→eq w.code code coded) in
              let was : dictionary_of items w.owner w.code db ≡ some d =
                subst₂ (λ x y. dictionary_of items x y db ≡ some d) o c found in
              (
                r.1,
                subst₂ (λ x y. dictionary_of items x y db' ≡ some r.1) (sym o) (sym c) k.read_back,
                next_later d.version w.expected_version r.1.version later (expected-there k was)
                    k.version,
              )
          | inr apart ↦ (d, others owner code apart ∙ found, later)
        ]
      where
        next_later : (n e m : ℕ) → v < n → n ≡ e → m ≡ e + 1 → v < m
        next_later n e m h k l = omega arith

    Replacements-IsAfter :
        {db db' : Db} → IsAfter v owner code db → Replacements db db' → IsAfter v owner code db'
    Replacements-IsAfter after start = after
    Replacements-IsAfter after (next {db1} down w before done) =
        replaced-IsAfter w db1 down done (Replacements-IsAfter after before)

  delete-expected :
      (down : Faults) (tenant code : String) (expected : ℕ) (db : Db)
      → Ensures
          (delete_tenant_dictionary items down tenant code expected)
          db
          (λ d db'. (dictionary_of items (some tenant) code db ≡ some d) × (d.version ≡ expected))
  unfolding delete_tenant_dictionary
  delete-expected down tenant code expected db =
      then_any _ _ (load_dictionary-ensures items down (some tenant) code db)
        λ o db0 (found, same). matching o (sym found)
    where
      matching :
          {db0 : Db} (o : Option Dictionary)
          → dictionary_of items (some tenant) code db ≡ o
          → Ensures (delete_matching items down tenant expected o) db0 (λ d db'.
            (dictionary_of items (some tenant) code db ≡ some d) × (d.version ≡ expected))
      matching none h = unfold delete_matching in ensures_fail _
      matching (some d) h =
          unfold delete_matching in
          ensures_if (nat_eq d.version expected)
            (λ k. then_exec _ _ _ _ _ _ (ensures_pure _ (h, ground arith))) (λ k. ensures_fail _)

  -- A write that names a dictionary and the version that it expects.
  pub data Write : Type 0 where
    replaces : DictionaryWrite → Write
    deletes : (tenant code : String) → ℕ → Write

  abbrev pub owner_of : Write → Option String
  owner_of (replaces w) = w.owner
  owner_of (deletes tenant code expected) = some tenant

  abbrev pub code_of : Write → String
  code_of (replaces w) = w.code
  code_of (deletes tenant code expected) = code

  abbrev pub expected_of : Write → ℕ
  expected_of (replaces w) = w.expected_version
  expected_of (deletes tenant code expected) = expected

  -- The write is committed, with whatever result.
  abbrev pub Commits : Faults → Write → Db → Type 0
  Commits down (replaces w) db =
      (r : Dictionary × Dictionary) × (db' : Db) × (within_transaction down
          (replace_dictionary items down w) db
        ≡ (ok r, db'))
  Commits down (deletes tenant code expected) db =
      (d : Dictionary) × (db' : Db) × (within_transaction down
          (delete_tenant_dictionary items down tenant code expected) db
        ≡ (ok d, db'))

  -- A committed write of a dictionary that is there expects its version.
  Commits-expected :
      (down : Faults) (w : Write) (db : Db) {d : Dictionary}
      → Commits down w db
      → dictionary_of items (owner_of w) (code_of w) db ≡ some d
      → d.version ≡ expected_of w
  Commits-expected down (replaces w) db (r, db', done) found =
      let (k, others) = replace_dictionary_exact items down w db done in expected-there k found
  Commits-expected down (deletes tenant code expected) db (c, db', done) found =
      let (there, named) =
        within_transaction-ensures down _ db (delete-expected down tenant code expected db) done in
      subst (λ x. x.version ≡ expected) (some-injective _ _ (sym there ∙ found)) named

  -- After a committed replacement of a dictionary, and whatever replacements of this and other
  -- dictionaries are committed then, no replacement or deletion of it that expects the same or an
  -- earlier version is committed: of two writers that have read the same version, one is refused.
  pub stale_write_refused :
      (down1 down2 : Faults) (first : DictionaryWrite) (second : Write) (db : Db) {db1 db2 : Db}
      {r : Dictionary × Dictionary}
      → owner_of second ≡ first.owner
      → code_of second ≡ first.code
      → expected_of second ≤ first.expected_version
      → within_transaction down1 (replace_dictionary items down1 first) db ≡ (ok r, db1)
      → Replacements db1 db2
      → ¬ Commits down2 second db2
  stale_write_refused down1 down2 first second db {db2 = db2} owned coded expected done since
        again =
      let (k, others) = replace_dictionary_exact items down1 first db done in
      let (d, found, later) =
        Replacements-IsAfter first.expected_version first.owner first.code
          (_, k.read_back, after_first first.expected_version _ k.version) since in
      too_late d.version first.expected_version (expected_of second) later expected (
        Commits-expected down2 second db2 again
          (subst₂ (λ x y. dictionary_of items x y db2 ≡ some d) (sym owned) (sym coded) found))
    where
      after_first : (v n : ℕ) → n ≡ v + 1 → v < n
      after_first v n e = omega arith

      too_late : (n v e : ℕ) → v < n → e ≤ v → n ≡ e → ⊥
      too_late n v e h k l = omega arith
