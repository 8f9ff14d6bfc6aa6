-- ===== src/Authorization/Management/Granting.antt =====
-- What a replacement of a user's grants by the service has checked and what it leaves.
use modura.Prelude.{
  ℕ, ◌+◌, String, Char, Bool, true, false, not, ◌||◌, List, [], ◌∷◌, ◌≡◌, refl, subst, ◌∙◌, All,
  any, blank, nat_eq, insertion_sort, Bool-cases, inl, inr, arith,
}
use modura.Text.{text_le}
use modura.Errors.{Result, ok}
use modura.Database.{Db}
use modura.Database.Tx.{Faults}
use modura.Database.Tx.Rules.{Ensures, ensures_pure, then_any}
use modura.Database.Tx.Runs.{labelled_call-ok}
use modura.Database.Tx.Atomic.{within_transaction-ensures}
use modura.Database.Tx.Calls.{and_then-ok, lifted-ok, refused-not_ok}
use modura.Audit.Writing.{IsRecorded}
use modura.Authorization.Types.{RolePolicySet, UserRoleGrantSet, WriteContext}
use modura.Authorization.Store
use modura.Authorization.Store.Reading.{get_role_policy_set-keeps}
use modura.Authorization.Store.Replacing.Grants.{IsRegranted, replace_user_role_grants-ensures}
use modura.Authorization.Enforcer.{Casbin, IsDocumented}
use modura.Authorization.Management.{
  Orders, Marshal, valid_write, event_of, has_duplicate_role_ids, check_role, check_roles, granting,
  replace_sorted_grants, replace_user_role_grants,
}
use modura.Authorization.Management.Delegated.{
  MayDelegate, check_delegation-ok, audit_change-ensures,
}

module _ {State : Type 0} (casbin : Casbin State) (law : IsDocumented casbin) (lower : Char → Char)
    (marshal : Marshal) (valid_json : String → Bool) (new_event_id : ℕ → Result String)
    (down : Faults) (orders : Orders) (managed : Bool) (now : ℕ) (w : WriteContext) where
  -- The role is there, not reserved, and the actor may delegate each of its policies.
  abbrev pub MayGrant : Db → String → Type 0
  MayGrant db role =
      (set : RolePolicySet) × (Store.get_role_policy_set down orders.policies w.actor.tenant_id role
          db
        ≡ (ok set, db))
      × (set.reserved ≡ false)
      × All
          (MayDelegate casbin law lower marshal valid_json new_event_id down orders managed now
            w.actor db)
          set.policies

  check_role-ok :
      (set : RolePolicySet) (db : Db) {db' : Db}
      → check_role casbin lower marshal valid_json new_event_id down orders managed now w set db
        ≡ (ok tt, db')
      → (set.reserved ≡ false)
        × All
            (MayDelegate casbin law lower marshal valid_json new_event_id down orders managed now
              w.actor db)
            set.policies
        × (db' ≡ db)
  unfolding check_role
  check_role-ok set db h = elim (Bool-cases set.reserved) [
    | inl e ↦ absurd (refused-not_ok _ db (rw e at h))
    | inr e ↦
        let (may, same) =
          check_delegation-ok casbin law lower marshal valid_json new_event_id down orders managed
            now w.actor set.policies db (rw e at h) in
        (e, may, same)
  ]

  check_roles-ok :
      (roles : List String) (db : Db) {db' : Db}
      → check_roles casbin lower marshal valid_json new_event_id down orders managed now w roles db
        ≡ (ok tt, db')
      → All (MayGrant db) roles × (db' ≡ db)
  unfolding check_roles
  check_roles-ok [] db h = let (_, same) = lifted-ok _ db h in (tt, same)
  check_roles-ok (role ∷ roles) db {db'} h =
      let (set, d1, read, rest) = and_then-ok _ _ db h in
      let same1 = get_role_policy_set-keeps down orders.policies w.actor.tenant_id role db read in
      let (u, d2, checked, last) = and_then-ok _ _ d1 rest in
      let (unreserved, may, same2) = check_role-ok set d1 checked in
      let (all_rest, same3) = check_roles-ok roles d2 last in
      (
        (
          (
            set,
            subst
                (λ x.
                  Store.get_role_policy_set down orders.policies w.actor.tenant_id role db
                  ≡ (ok set, x))
                same1 read,
            unreserved,
            subst
                (λ x.
                  All
                    (MayDelegate casbin law lower marshal valid_json new_event_id down orders
                      managed now w.actor x)
                    set.policies)
                same1 may,
          ),
          subst (λ x. All (MayGrant x) roles) (same2 ∙ same1) all_rest,
        ),
        same3 ∙ same2 ∙ same1,
      )

  -- What the unit of work leaves: the store's replacement, and one event on top of it.
  pub record IsGranting (user : String) (expected : ℕ) (desired : List String) (db : Db)
      (set : UserRoleGrantSet) (db' : Db) : Type 0 where
    pub old : UserRoleGrantSet
    pub between : Db
    pub regranted : IsRegranted w.actor.tenant_id user expected desired db old between
    pub returned : set ≡ record { version = old.version + 1; role_ids = desired }
    pub before_json : String
    pub after_json : String
    pub encoded : marshal.grants set ≡ ok after_json
    pub recorded :
        IsRecorded
          (event_of w now "authorization.user-roles.replaced" "user" user before_json after_json)
          between
          db'

  granting-ensures :
      (user : String) (expected : ℕ) (desired : List String) (db : Db)
      → Ensures
          (granting casbin lower marshal valid_json new_event_id down orders managed now w user
            expected desired)
          db
          (IsGranting user expected desired db)
  unfolding granting
  granting-ensures user expected desired db =
      then_any _ _
        (replace_user_role_grants-ensures w.actor.tenant_id user down expected desired now db)
        λ old d1 regranted.
          then_any _ _
            (audit_change-ensures casbin law lower marshal valid_json new_event_id down orders
              managed now w _ _ _ _ _ d1)
            λ u d2 (b, a, encoded, recorded). ensures_pure _ (record {
              old = old;
              between = d1;
              regranted = regranted;
              returned = refl;
              before_json = b;
              after_json = a;
              encoded = encoded;
              recorded = recorded;
            })

  -- A replacement of a user's grants that the service reports as done was asked for in a valid write
  -- context, for roles without a repetition of which none is reserved and each has only policies that
  -- the scope of the actor, in the database, covers; and it leaves the store's replacement, under the
  -- next version, with one event that holds the grants it returns.
  pub replace_user_role_grants_delegated :
      (user : String) (expected : ℕ) (desired : List String) (db : Db) {set : UserRoleGrantSet}
      {db' : Db}
      → replace_user_role_grants casbin lower marshal valid_json new_event_id down orders managed
          now w user expected desired db
        ≡ (ok set, db')
      → (valid_write w ≡ true)
        × (has_duplicate_role_ids (insertion_sort text_le desired) ≡ false)
        × All (MayGrant db) (insertion_sort text_le desired)
        × IsGranting user expected (insertion_sort text_le desired) db set db'
  unfolding replace_user_role_grants replace_sorted_grants
  replace_user_role_grants_delegated user expected desired db {set} {db'} h =
      elim (Bool-cases (not (valid_write w) || not managed || blank user || nat_eq expected 0)) [
        | inl e ↦ absurd (refused-not_ok _ db (rw e at h))
        | inr e ↦ sorted (insertion_sort text_le desired) (ground arith) (rw e at h)
      ]
    where
      sorted :
          (roles : List String)
          → valid_write w ≡ true
          → replace_sorted_grants casbin lower marshal valid_json new_event_id down orders managed
              now w user expected roles db
            ≡ (ok set, db')
          → (valid_write w ≡ true)
            × (has_duplicate_role_ids roles ≡ false)
            × All (MayGrant db) roles
            × IsGranting user expected roles db set db'
      sorted roles valid k = elim (Bool-cases (any blank roles || has_duplicate_role_ids roles)) [
        | inl e ↦ absurd (refused-not_ok _ db (rw e at k))
        | inr e ↦
            let (u, d, checked, rest) = and_then-ok _ _ db (rw e at k) in
            let (may, same) = check_roles-ok roles db checked in
            (
              valid,
              ground arith,
              may,
              subst (λ x. IsGranting user expected roles x set db') same
                  (within_transaction-ensures down _ d (granting-ensures user expected roles d)
                    (labelled_call-ok _ _ d rest)),
            )
      ]
