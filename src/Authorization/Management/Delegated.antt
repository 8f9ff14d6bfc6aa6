-- ===== src/Authorization/Management/Delegated.antt =====
-- What a replacement of policies by the service has checked and what it leaves.
use modura.Prelude.{
  ℕ, String, Char, Bool, true, not, ◌||◌, List, [], ◌∷◌, ◌≡◌, subst, ◌∙◌, All, blank, nat_eq,
  Bool-cases, inl, inr, arith, if◌then◌else◌,
}
use modura.Errors.{Result, ok}
use modura.Database.{Db}
use modura.Database.Tx.{Faults, run, fail}
use modura.Database.Tx.Rules.{
  Ensures, ensures_pure, ensures_labelled, ensures_from_result, ensures_at, then_any, weaken,
}
use modura.Database.Tx.Runs.{labelled_call-ok}
use modura.Database.Tx.Atomic.{within_transaction-ensures}
use modura.Database.Tx.Calls.{and_then-ok, on_error-ok, lifted-ok, refused-not_ok}
use modura.Identity.Types.{Actor}
use modura.Audit.Writing.{IsRecorded, record_tenant_write-ensures}
use modura.Authorization.Types.{Policy, ResolvedDataScope, WriteContext}
use modura.Authorization.Policies.{valid_policies, can_delegate}
use modura.Authorization.Store.Replacing.{IsReplacement, replace_role_policies-ensures}
use modura.Authorization.Enforcer.{Casbin, IsDocumented}
use modura.Authorization.Service.{denied, resolve_data_scope}
use modura.Authorization.Service.Decisions.{resolve_data_scope-keeps}
use modura.Authorization.Management.{
  Orders, Marshal, valid_write, event_of, audit_change, check_delegation, replacement,
  replace_role_policies,
}

module _ {State : Type 0} (casbin : Casbin State) (law : IsDocumented casbin) (lower : Char → Char)
    (marshal : Marshal) (valid_json : String → Bool) (new_event_id : ℕ → Result String)
    (down : Faults) (orders : Orders) (managed : Bool) (now : ℕ) where
  -- The actor's scope for the policy's permission is resolved in the database, and covers it.
  abbrev pub MayDelegate : Actor → Db → Policy → Type 0
  MayDelegate actor db p =
      (scope : ResolvedDataScope) × (resolve_data_scope casbin down orders.rows actor p.permission
          db
        ≡ (ok scope, db))
      × (can_delegate scope p ≡ true)

  pub check_delegation-ok :
      (actor : Actor) (ps : List Policy) (db : Db) {db' : Db}
      → check_delegation casbin lower marshal valid_json new_event_id down orders managed now actor
          ps db
        ≡ (ok tt, db')
      → All (MayDelegate actor db) ps × (db' ≡ db)
  unfolding check_delegation
  check_delegation-ok actor [] db h = let (_, same) = lifted-ok _ db h in (tt, same)
  check_delegation-ok actor (p ∷ ps) db {db'} h =
      let (scope, d, h1, k1) = and_then-ok _ _ db h in
      let resolved = on_error-ok _ _ db h1 in
      let same =
        resolve_data_scope-keeps casbin law down orders.rows actor p.permission db resolved in
      let (covered, rest) = delegated scope d k1 in
      let (all_rest, kept) = check_delegation-ok actor ps d rest in
      (
        (
          (
            scope,
            subst
                (λ x.
                  resolve_data_scope casbin down orders.rows actor p.permission db ≡ (ok scope, x))
                same resolved,
            covered,
          ),
          subst (λ x. All (MayDelegate actor x) ps) same all_rest,
        ),
        kept ∙ same,
      )
    where
      delegated :
          (scope : ResolvedDataScope) (d : Db)
          → (if can_delegate scope p
                then check_delegation casbin lower marshal valid_json new_event_id down orders
                    managed now actor ps
                else run (fail denied))
              d
            ≡ (ok tt, db')
          → (can_delegate scope p ≡ true)
            × (check_delegation casbin lower marshal valid_json new_event_id down orders managed now
                  actor ps d
                ≡ (ok tt, db'))
      delegated scope d k = elim (Bool-cases (can_delegate scope p)) [
        | inl e ↦ (e, rw e at k)
        | inr e ↦ absurd (refused-not_ok _ d (rw e at k))
      ]

  -- What the unit of work leaves: the store's replacement, and one event on top of it.
  pub record IsReplaced (w : WriteContext) (role : String) (expected : ℕ) (desired : List Policy)
      (db : Db) (version : ℕ) (db' : Db) : Type 0 where
    pub between : Db
    pub replaced : IsReplacement w.actor.tenant_id role expected desired now db version between
    pub before_json : String
    pub after_json : String
    pub encoded : marshal.policies desired ≡ ok after_json
    pub recorded :
        IsRecorded
          (event_of w now "authorization.role-policies.replaced" "role" role before_json after_json)
          between
          db'

  pub audit_change-ensures :
      (w : WriteContext) (action resource id : String) (before after : Result String) (db : Db)
      → Ensures
          (audit_change casbin lower marshal valid_json new_event_id down orders managed now w
            action resource id before after)
          db
          (λ u db'.
            (b : String) × (a : String) × (after ≡ ok a)
            × IsRecorded (event_of w now action resource id b a) db db')
  unfolding audit_change
  audit_change-ensures w action resource id before after db =
      then_any _ _ (ensures_labelled _ _ (ensures_from_result before)) λ b d1 (_, same1).
        ensures_at same1 (
          then_any _ _ (ensures_labelled _ _ (ensures_from_result after)) λ a d2 (encoded, same2).
            ensures_at same2 (
              weaken
                (record_tenant_write-ensures valid_json new_event_id down
                  (event_of w now action resource id b a) db)
                λ u d3 recorded. (b, a, encoded, recorded)))

  replacement-ensures :
      (w : WriteContext) (role : String) (expected : ℕ) (desired : List Policy) (db : Db)
      → Ensures
          (replacement casbin lower marshal valid_json new_event_id down orders managed now w role
            expected desired)
          db
          (IsReplaced w role expected desired db)
  unfolding replacement
  replacement-ensures w role expected desired db =
      then_any _ _
        (replace_role_policies-ensures w.actor.tenant_id role down orders.policies expected desired
          now db)
        λ done d1 replaced.
          then_any _ _ (audit_change-ensures w _ _ _ _ _ d1) λ u d2 (b, a, encoded, recorded).
            ensures_pure _ (record {
              between = d1;
              replaced = replaced;
              before_json = b;
              after_json = a;
              encoded = encoded;
              recorded = recorded;
            })

  -- A replacement of policies that the service reports as done was asked for in a valid write
  -- context with valid policies, each covered by the scope that the actor has for its permission in
  -- the database; and it leaves the store's replacement, under the next version, with one event that
  -- holds the desired policies.
  pub replace_role_policies_delegated :
      (w : WriteContext) (role : String) (expected version : ℕ) (desired : List Policy)
      (db db' : Db)
      → replace_role_policies casbin lower marshal valid_json new_event_id down orders managed now w
          role expected desired db
        ≡ (ok version, db')
      → (valid_write w ≡ true)
        × (valid_policies desired ≡ true)
        × All (MayDelegate w.actor db) desired
        × IsReplaced w role expected desired db version db'
  unfolding replace_role_policies
  replace_role_policies_delegated w role expected version desired db db' h =
      elim (Bool-cases (
        not (valid_write w)
        || not managed
        || blank role
        || nat_eq expected 0
        || not (valid_policies desired))) [
          | inl e ↦ absurd (refused-not_ok _ db (rw e at h))
          | inr e ↦
              let (u, d, checked, rest) = and_then-ok _ _ db (rw e at h) in
              let (delegated, same) = check_delegation-ok w.actor desired db checked in
              (
                ground arith,
                ground arith,
                delegated,
                subst (λ x. IsReplaced w role expected desired x version db') same
                    (within_transaction-ensures down _ d
                      (replacement-ensures w role expected desired d)
                      (labelled_call-ok _ _ d rest)),
              )
        ]
