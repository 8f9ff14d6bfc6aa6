-- ===== src/Authorization/Store/Replacing.antt =====
-- What `ReplaceRolePolicies` and `ReplaceUserRoleGrants` of the store leave behind.
pub mod Grants
use modura.Prelude.{
  ℕ, zero, suc, ◌+◌, String, Bool, true, false, not, ◌&&◌, ◌||◌, Option, none, some, List, [], ◌∷◌,
  ◌++◌, ◌≡◌, refl, sym, ◌∙◌, ap, subst, ◌==◌, eq_iff, eq_refl, any, find, any_imply_false, filter,
  map, update_where, delete_where, nat_eq, arith, Bool-cases, inl, inr, if◌then◌else◌,
}
use mathlib.Core.List.{append-nil, append_assoc, map-append}
use modura.Errors.{Result, ok, err}
use modura.Database.{RoleRow, RolePolicy, DataScopeKind, Db}
use modura.Database.Constraints.Policies.{same_permission, last_policy_alone}
use modura.Database.Tx.{Faults, within_transaction}
use modura.Database.Tx.Atomic.{within_transaction-ensures}
use modura.Database.Tx.Rules.{
  Ensures, ensures_pure, ensures_fail, ensures_if, then_query, then_exec, then_exec_held, then_any,
  weaken,
}
use modura.Authorization.Types.{Permission, Policy}
use modura.Authorization.Store.{
  insert_departments, insert_policies, replace_locked, replace_role_policies,
}
use modura.Authorization.StoreRows.{
  is_policy, policies_of, insert_policy, insert_policy_department, is_role, is_policy_of,
}

filter-append {ℓ} :
    {A : Type ℓ} (p : A → Bool) (xs ys : List A) → filter p (xs ++ ys) ≡ filter p xs ++ filter p ys
unfolding filter
filter-append p [] ys = refl
filter-append p (x ∷ xs) ys = elim (Bool-cases (p x)) [
  | inl e ↦ rw e (ap (λ l. x ∷ l) (filter-append p xs ys))
  | inr e ↦ rw e (filter-append p xs ys)
]

version_is : (a b : ℕ) → not (nat_eq a b) ≡ false → a ≡ b
version_is a b h = ground arith

-- What a policy row grants: the permission, the scope and the departments of a custom scope.
abbrev pub Key : Type 0
Key = Permission × DataScopeKind × List String

abbrev pub row_key : RolePolicy → Key
row_key p = (record { resource = p.resource; action = p.action }, p.data_scope, p.department_ids)

abbrev pub policy_key : Policy → Key
policy_key p = (p.permission, p.scope, p.department_ids)

update_where-last :
    {A : Type 0} (p : A → Bool) (f : A → A) (xs : List A) (y : A)
    → any p xs ≡ false
    → p y ≡ true
    → update_where p f (xs ++ y ∷ []) ≡ xs ++ f y ∷ []
unfolding update_where
update_where-last p f [] y h k = rw k
update_where-last p f (x ∷ xs) y h k =
    rw
      (let apart : p x ≡ false = ground arith in apart, update_where-last p f xs y (ground arith) k)

module _ (t role : String) where
  abbrev pub keys : List RolePolicy → List Key
  keys rows = map row_key (filter (is_policy_of t role) rows)

  abbrev pub others : List RolePolicy → List RolePolicy
  others rows = filter (λ p. not (is_policy_of t role p)) rows

  keys-deleted : (rows : List RolePolicy) → keys (delete_where (is_policy_of t role) rows) ≡ []
  unfolding delete_where filter
  keys-deleted [] = refl
  keys-deleted (p ∷ rows) = elim (Bool-cases (is_policy_of t role p)) [
    | inl e ↦ rw e (keys-deleted rows)
    | inr e ↦ rw (e, e) (keys-deleted rows)
  ]

  others-deleted :
      (rows : List RolePolicy) → others (delete_where (is_policy_of t role) rows) ≡ others rows
  unfolding delete_where filter
  others-deleted [] = refl
  others-deleted (p ∷ rows) = elim (Bool-cases (is_policy_of t role p)) [
    | inl e ↦ rw e (others-deleted rows)
    | inr e ↦ rw (e, e) (ap (λ l. p ∷ l) (others-deleted rows))
  ]

  abbrev with_department : String → RolePolicy → RolePolicy
  with_department d r = record r { department_ids = r.department_ids ++ d ∷ [] }

  abbrev row_of : Permission → DataScopeKind → List String → RolePolicy
  row_of q scope ids = record {
    tenant_id = t;
    role_id = role;
    resource = q.resource;
    action = q.action;
    data_scope = scope;
    department_ids = ids;
  }

  row_mine :
      (q : Permission) (scope : DataScopeKind) (ids : List String)
      → is_policy_of t role (row_of q scope ids) ≡ true
  row_mine q scope ids = rw (eq_refl t, eq_refl role)

  row_found :
      (q : Permission) (scope : DataScopeKind) (ids : List String)
      → is_policy t role q (row_of q scope ids) ≡ true
  row_found q scope ids = rw (eq_refl t, eq_refl role, eq_refl q.resource, eq_refl q.action)

  keys-inserted :
      (q : Permission) (scope : DataScopeKind) (ids : List String) (rows : List RolePolicy)
      → keys (rows ++ row_of q scope ids ∷ []) ≡ keys rows ++ (q, scope, ids) ∷ []
  unfolding filter
  keys-inserted q scope ids rows = rw (
    filter-append (is_policy_of t role) rows (row_of q scope ids ∷ []),
    row_mine q scope ids,
    map-append,
  )

  others-inserted :
      (q : Permission) (scope : DataScopeKind) (ids : List String) (rows : List RolePolicy)
      → others (rows ++ row_of q scope ids ∷ []) ≡ others rows
  unfolding filter
  others-inserted q scope ids rows =
      rw
        (
          filter-append (λ p. not (is_policy_of t role p)) rows (row_of q scope ids ∷ []),
          row_mine q scope ids,
        )
        (append-nil (others rows))

  -- The role has no other row of the permission than the one inserted last.
  row_alone :
      (q : Permission) (scope : DataScopeKind) (rows : List RolePolicy)
      → any (λ r. same_permission r (row_of q scope [])) rows ≡ false
      → any (is_policy t role q) rows ≡ false
  row_alone q scope rows h =
      any_imply_false (λ r. same_permission r (row_of q scope [])) (is_policy t role q) rows h
        (λ r k. ground arith)

  -- Inserting policies adds their keys to the role's, and leaves the other rows and the roles.
  pub record IsExtended (db : Db) (added : List Key) (db' : Db) : Type 0 where
    pub keys_added : keys db'.role_policies ≡ keys db.role_policies ++ added
    pub others_kept : others db'.role_policies ≡ others db.role_policies
    pub roles_kept : db'.roles ≡ db.roles

  module _ (down : Faults) where
    -- The last row gets the departments, in their order.
    insert_departments-ensures :
        (q : Permission) (scope : DataScopeKind) (rows : List RolePolicy)
        → any (is_policy t role q) rows ≡ false
        → (i : ℕ) (ids ds : List String) (db : Db)
        → db.role_policies ≡ rows ++ row_of q scope ids ∷ []
        → Ensures (insert_departments down t role q i ds) db (λ u db'.
          (db'.role_policies ≡ rows ++ row_of q scope (ids ++ ds) ∷ []) × (db'.roles ≡ db.roles))
    unfolding insert_departments
    insert_departments-ensures q scope rows alone i ids [] db h =
        ensures_pure _ (h ∙ ap (λ l. rows ++ row_of q scope l ∷ []) (sym (append-nil ids)), refl)
    insert_departments-ensures q scope rows alone i ids (d ∷ ds) db h = then_exec _ _ _ _ _ _ (
        weaken
          (insert_departments-ensures q scope rows alone (suc i) (ids ++ d ∷ []) ds _ (
            ap (update_where (is_policy t role q) _) h
            ∙ update_where-last (is_policy t role q) _ rows (row_of q scope ids) alone
                (row_found q scope ids)))
          λ u db' (stored, kept).
            (stored ∙ ap (λ l. rows ++ row_of q scope l ∷ []) (append_assoc ids (d ∷ []) ds), kept))

    insert_policies-ensures :
        (i : ℕ) (ps : List Policy) (db : Db)
        → Ensures
            (insert_policies down t role i ps)
            db
            (λ u db'. IsExtended db (map policy_key ps) db')
    unfolding insert_policies
    insert_policies-ensures i [] db =
        ensures_pure _
          (record { keys_added = sym (append-nil _); others_kept = refl; roles_kept = refl })
    insert_policies-ensures i (p ∷ ps) db = then_exec_held _ _ _ _ _ _ λ held.
        let alone = row_alone p.permission p.scope db.role_policies (
          last_policy_alone (insert_policy t role p.permission p.scope db).1 db.role_policies
            (row_of p.permission p.scope []) refl held) in
        then_any _ _
          (insert_departments-ensures p.permission p.scope db.role_policies alone 0 []
            p.department_ids _ refl)
          λ u d1 (stored, kept). weaken (insert_policies-ensures (suc i) ps d1) λ v d2 e2. record {
            keys_added =
                e2.keys_added
                ∙ ap (λ l. l ++ map policy_key ps)
                    (ap keys stored
                      ∙ keys-inserted p.permission p.scope p.department_ids db.role_policies)
                ∙ append_assoc (keys db.role_policies) (policy_key p ∷ []) (map policy_key ps);
            others_kept =
                e2.others_kept
                ∙ ap others stored
                ∙ others-inserted p.permission p.scope p.department_ids db.role_policies;
            roles_kept = e2.roles_kept ∙ kept;
          }

  -- The role's row was open and had the expected version; afterwards its policies have the desired
  -- permissions, scopes and departments in that order, and the policies of all other roles are as they were.
  pub record IsReplacement (expected : ℕ) (desired : List Policy) (now : ℕ) (db : Db) (version : ℕ)
      (db' : Db) : Type 0 where
    pub row : RoleRow
    pub locked : find (is_role t role) db.roles ≡ some row
    pub open_row : row.reserved ≡ false
    pub expected_version : row.version ≡ expected
    pub next_version : version ≡ expected + 1
    pub keys_desired : keys db'.role_policies ≡ map policy_key desired
    pub others_kept : others db'.role_policies ≡ others db.role_policies
    pub roles_versioned :
        db'.roles
        ≡ update_where
            (is_role t role)
            (λ x. record x { version = version; updated_at = now })
            db.roles

  module _ (down : Faults) (before : RolePolicy → RolePolicy → Bool) (expected : ℕ)
      (desired : List Policy) (now : ℕ) (db : Db) where
    replace_locked-ensures :
        (o : Option RoleRow)
        → find (is_role t role) db.roles ≡ o
        → Ensures
            (replace_locked down before t role expected desired now o)
            db
            (λ r db'. IsReplacement expected desired now db r.1 db')
    unfolding replace_locked
    replace_locked-ensures none h = ensures_fail _
    replace_locked-ensures (some r) h =
        ensures_if r.reserved (λ _. ensures_fail _)
          λ unreserved.
            ensures_if (not (nat_eq r.version expected)) (λ _. ensures_fail _)
              λ same. then_query _ _ _ _ (
                then_exec _ _ _ _ _ _ (
                  then_any _ _ (insert_policies-ensures down 0 desired _) λ u d1 e.
                    then_exec _ _ _ _ _ _ (
                      ensures_pure _ (record {
                        row = r;
                        locked = h;
                        open_row = unreserved;
                        expected_version = version_is r.version expected same;
                        next_version = ap (λ n. n + 1) (version_is r.version expected same);
                        keys_desired =
                            e.keys_added
                            ∙ ap (λ l. l ++ map policy_key desired) (keys-deleted db.role_policies);
                        others_kept = e.others_kept ∙ others-deleted db.role_policies;
                        roles_versioned = ap (update_where (is_role t role) _) e.roles_kept;
                      }))))

    pub replace_role_policies-ensures :
        Ensures
          (replace_role_policies down before t role expected desired now)
          db
          (λ r db'. IsReplacement expected desired now db r.1 db')
    unfolding replace_role_policies
    replace_role_policies-ensures = then_query _ _ _ _ (replace_locked-ensures _ refl)

    -- A replacement that is committed had the expected version of a role that is not reserved,
    -- raises the version by one, gives the role exactly the desired permissions, each with its scope
    -- and its departments, in their order, and leaves the policies of the other roles and tenants as they were.
    pub replace_role_policies_sound :
        {old : List Policy} {version : ℕ} {db' : Db}
        → within_transaction down (replace_role_policies down before t role expected desired now) db
          ≡ (ok (old, version), db')
        → IsReplacement expected desired now db version db'
    replace_role_policies_sound done =
        within_transaction-ensures down _ db replace_role_policies-ensures done
