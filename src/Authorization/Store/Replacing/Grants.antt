-- ===== src/Authorization/Store/Replacing/Grants.antt =====
-- What `ReplaceUserRoleGrants` of the store leaves behind.
use modura.Prelude.{
  ℕ, zero, suc, ◌+◌, String, Bool, true, false, not, ◌&&◌, ◌||◌, Option, none, some, List, [], ◌∷◌,
  ◌≡◌, refl, ◌∙◌, ap, subst, ◌==◌, eq_refl, eq-true→eq, any, find, filter, filter-delete_where,
  filter-cons_false, find-update_where, contains, delete_where, nat_eq, arith, Bool-cases, inl, inr,
  length,
}
use modura.Database.{UserRole, UserRoleVersion, Db}
use modura.Errors.{ok}
use modura.Database.Tx.{Faults, within_transaction}
use modura.Database.Tx.Atomic.{within_transaction-ensures}
use modura.Database.Tx.Rules.{
  Ensures, ensures_pure, ensures_fail, ensures_if, then_query, then_exec, ensures_at, then_any,
  then_kept, weaken,
}
use modura.Identity.Rows.{is_user}
use modura.Authorization.Types.{UserRoleGrantSet}
use modura.Authorization.Store.{
  initialize_for_user, user_checked, valid_count, check_desired, insert_grants, replace_grants,
  replace_user_role_grants,
}
use modura.Authorization.StoreRows.{is_open_role, is_open_grant, open_grants, is_version_of}

version_is : (a b : ℕ) → not (nat_eq a b) ≡ false → a ≡ b
version_is a b h = ground arith

module _ (t user : String) where
  -- The row grants the role to the user; the row is another user's or tenant's.
  abbrev pub is_grant : String → UserRole → Bool
  is_grant role g = g.tenant_id == t && g.user_id == user && g.role_id == role

  abbrev pub is_mine : UserRole → Bool
  is_mine g = g.tenant_id == t && g.user_id == user

  abbrev pub others : List UserRole → List UserRole
  others rows = filter (λ g. not (is_mine g)) rows

  -- What a row that grants the role is deleted by: the role's row is one that is not reserved.
  is_open_grant-is_grant :
      (db : Db) (role : String) (g : UserRole)
      → is_grant role g ≡ true
      → is_open_grant t user db g ≡ is_open_role t role db.roles
  unfolding is_open_grant
  is_open_grant-is_grant db role g h =
      let same : g.role_id ≡ role = eq-true→eq g.role_id role (ground arith) in
      let mine : is_mine g ≡ true = ground arith in
      subst (λ r. (is_mine g && is_open_role t g.role_id db.roles) ≡ is_open_role t r db.roles) same
        (ground arith)

  granted-deleted :
      (db : Db) (role : String) (rows : List UserRole)
      → any (is_grant role) (delete_where (is_open_grant t user db) rows)
        ≡ (any (is_grant role) rows && not (is_open_role t role db.roles))
  unfolding delete_where
  granted-deleted db role [] = refl
  granted-deleted db role (g ∷ rows) =
      ground (arith, granted-deleted db role rows, is_open_grant-is_grant db role g)

  others-deleted :
      (db : Db) (rows : List UserRole)
      → others (delete_where (is_open_grant t user db) rows) ≡ others rows
  unfolding is_open_grant
  others-deleted db rows = filter-delete_where _ _ rows λ g h. ground arith

  -- Granting a list of roles adds them for the user, and leaves the other rows.
  record IsGranted (db : Db) (added : List String) (db' : Db) : Type 0 where
    granted :
        (role : String)
        → any (is_grant role) db'.user_roles
          ≡ (contains role added || any (is_grant role) db.user_roles)
    others_kept : others db'.user_roles ≡ others db.user_roles
    roles_kept : db'.roles ≡ db.roles
    versions_kept : db'.user_role_versions ≡ db.user_role_versions

  module _ (down : Faults) (now : ℕ) where
    insert_grants-ensures :
        (i : ℕ) (roles : List String) (db : Db)
        → Ensures (insert_grants down t user now i roles) db (λ u db'. IsGranted db roles db')
    unfolding insert_grants contains
    insert_grants-ensures i [] db = ensures_pure _ (record {
      granted = λ role. refl;
      others_kept = refl;
      roles_kept = refl;
      versions_kept = refl;
    })
    insert_grants-ensures i (r ∷ roles) db =
        let mine : (not (t == t && user == user)) ≡ false = rw (eq_refl t, eq_refl user) in
        then_exec _ _ _ _ _ _ (
          weaken (insert_grants-ensures (suc i) roles _) λ u db' e. record {
            granted = λ role. e.granted role ∙ ground arith;
            others_kept = e.others_kept ∙ filter-cons_false _ db.user_roles mine;
            roles_kept = e.roles_kept;
            versions_kept = e.versions_kept;
          })

  -- The user's version was the expected one and is raised; the user now holds the desired roles and
  -- no other that is not reserved, and the grants of all other users are as they were.
  pub record IsRegranted (expected : ℕ) (desired : List String) (db : Db) (set : UserRoleGrantSet)
      (db' : Db) : Type 0 where
    pub before_version : set.version ≡ expected
    pub before_state : set.role_ids ≡ open_grants t user db
    pub granted_desired :
        (role : String)
        → any (is_grant role) db'.user_roles ≡ (
            contains role desired
            || (any (is_grant role) db.user_roles && not (is_open_role t role db.roles)))
    pub others_kept : others db'.user_roles ≡ others db.user_roles
    pub roles_kept : db'.roles ≡ db.roles
    pub raised : UserRoleVersion
    pub stored : find (is_version_of t user) db'.user_role_versions ≡ some raised
    pub next_version : raised.version ≡ expected + 1

  module _ (down : Faults) (expected : ℕ) (desired : List String) (now : ℕ) where
    check_desired-ensures :
        (roles : List String) (db : Db)
        → Ensures (check_desired down t roles) db (λ u db'. db' ≡ db)
    unfolding check_desired
    check_desired-ensures [] db = ensures_pure _ refl
    check_desired-ensures (r ∷ roles) db = then_query _ _ _ _ (
        ensures_if (nat_eq (valid_count down t (r ∷ roles) db) (length (r ∷ roles)))
          (λ _. ensures_pure _ refl) (λ _. ensures_fail _))

    replace_grants-ensures :
        (o : Option UserRoleVersion) (db : Db)
        → find (is_version_of t user) db.user_role_versions ≡ o
        → Ensures
            (replace_grants down t user expected desired now o)
            db
            (IsRegranted expected desired db)
    unfolding replace_grants
    replace_grants-ensures none db h = ensures_fail _
    replace_grants-ensures (some v) db h =
        ensures_if (not (nat_eq v.version expected)) (λ _. ensures_fail _)
          λ same. then_query _ _ _ _ (
            then_kept _ _ (check_desired-ensures desired db) λ u.
              (then_exec _ _ _ _ _ _ (
                then_any _ _ (insert_grants-ensures down now 0 desired _) λ u d2 e.
                  then_exec _ _ _ _ _ _ (
                    ensures_pure _ (record {
                      before_version = version_is v.version expected same;
                      before_state = refl;
                      granted_desired = λ role.
                          e.granted role
                          ∙ ap (λ b. contains role desired || b)
                              (granted-deleted db role db.user_roles);
                      others_kept = e.others_kept ∙ others-deleted db db.user_roles;
                      roles_kept = e.roles_kept;
                      raised = record v { version = v.version + 1; updated_at = now };
                      stored =
                          find-update_where _ _ d2.user_role_versions
                            (ap (find (is_version_of t user)) e.versions_kept ∙ h) (λ y k. k);
                      next_version = ap (λ n. n + 1) (version_is v.version expected same);
                    })))))

    initialize_for_user_keeps :
        (db : Db)
        → (vs : List UserRoleVersion) × ((initialize_for_user down t user now db).1
            ≡ record db { user_role_versions = vs })
    unfolding initialize_for_user
    initialize_for_user_keeps db = elim (Bool-cases (any (is_user t user) db.users)) [
      | inl e ↦ elim (Bool-cases (any (is_version_of t user) db.user_role_versions)) [
        | inl k ↦ (db.user_role_versions, rw (e, k))
        | inr k ↦ (
          record { tenant_id = t; user_id = user; version = 1; updated_at = now }
              ∷ db.user_role_versions,
          rw (e, k),
        )
      ]
      | inr e ↦ (db.user_role_versions, rw e)
    ]

    user_checked-ensures :
        (n : ℕ) (db : Db) → Ensures (user_checked down t user n) db (λ u db'. db' ≡ db)
    unfolding user_checked
    user_checked-ensures zero db = record {
      holds = λ u db' h.
          elim (Bool-cases
            (down "check role grant user" 0 || not (any (is_user t user) db.users))) [
              | inl e ↦ cc (rw e at h)
              | inr e ↦ cc (rw e at h)
            ];
    }
    user_checked-ensures (suc n) db = record { holds = λ u db' h. cc h }

    pub replace_user_role_grants-ensures :
        (db : Db)
        → Ensures
            (replace_user_role_grants down t user expected desired now)
            db
            (IsRegranted expected desired db)
    unfolding replace_user_role_grants open_grants
    replace_user_role_grants-ensures db =
        let (vs, kept) = initialize_for_user_keeps db in
        then_exec _ _ _ _ _ _ (
          ensures_at kept (
            then_kept _ _ (user_checked-ensures _ _) λ u.
              (then_query _ _ _ _ (
                weaken (replace_grants-ensures _ (record db { user_role_versions = vs }) refl)
                  λ set db' e. record {
                    before_version = e.before_version;
                    before_state = e.before_state;
                    granted_desired = e.granted_desired;
                    others_kept = e.others_kept;
                    roles_kept = e.roles_kept;
                    raised = e.raised;
                    stored = e.stored;
                    next_version = e.next_version;
                  }))))

    -- A replacement of grants that is committed had the expected version and raises it by one; the
    -- user then holds the desired roles and whatever reserved roles were held before and no others,
    -- and the grants of the other users and tenants and the roles are as they were. The result is
    -- the version and the roles that are not reserved from before.
    replace_user_role_grants_sound :
        (db : Db) {set : UserRoleGrantSet} {db' : Db}
        → within_transaction down (replace_user_role_grants down t user expected desired now) db
          ≡ (ok set, db')
        → IsRegranted expected desired db set db'
    replace_user_role_grants_sound db done =
        within_transaction-ensures down _ db (replace_user_role_grants-ensures db) done
