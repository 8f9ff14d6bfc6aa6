-- ===== src/Tenancy/Suspension.antt =====
-- A suspended tenant is shut.
use modura.Prelude.{
  ℕ, String, Bool, true, false, false≢true, ◌&&◌, ◌||◌, ◌==◌, ◌∷◌, ◌≡◌, ◌≢◌, refl, sym, subst, some,
  ◌∙◌, blank, any, find, find_sound, any-false, any_imply_false, any-update_where-false,
  update_where, count_where, nat_eq, Bool-cases, inl, inr, arith, eq_iff,
}
use modura.Errors.{Result, ok}
use modura.Database.{Tenant, TenantStatus, User, Db}
use modura.Database.Tx.{Faults}
use modura.Database.Tx.Rules.{
  Ensures, ensures_pure, ensures_fail, ensures_if, then_control, then_query, then_exec, then_any,
  ensures_at,
}
use modura.Database.Tx.Runs.{run-ensures, labelled_call-ok}
use modura.Database.Tx.Calls.{and_then-ok, refused-not_ok}
use modura.Identity.Types.{Session}
use modura.Identity.Rows.{joined, tenant_is_active}
use modura.Identity.Sessions.{validates, validate_session}
use modura.Identity.Sessions.Validation.{validate_session_sound}
use modura.Text.{trim_space}
use modura.Identity.AccountRows.{matches_login}
use modura.PlatformAdmin.{PlatformActor}
use modura.Tenancy.{
  LifecycleChange, is_in_status, with_status, same_status, lifecycle_event, one_changed,
  change_status, suspend,
}

-- The tenant has no active row.
abbrev pub Closed : Db → String → Type 0
Closed db tenant = any (λ r. r.id == tenant && tenant_is_active r) db.tenants ≡ false

validates-Closed :
    (x : Session) (t : ℕ) (db : Db)
    → Closed db x.tenant_id
    → any (validates x t db) db.auth_sessions ≡ false
unfolding joined
validates-Closed x t db shut = any-false _ db.auth_sessions λ s.
    elim (Bool-cases (s.tenant_id == x.tenant_id)) [
      | inl e ↦
          let shut_there = subst (Closed db) (sym ((eq_iff s.tenant_id x.tenant_id).0 e)) shut in
          ground arith
      | inr e ↦ ground arith
    ]

matches_login-Closed :
    (tenant slug login : String) (u : User) (db : Db)
    → Closed db tenant
    → find (matches_login slug login db) db.users ≡ some u
    → (u.tenant_id == tenant) ≡ false
matches_login-Closed tenant slug login u db shut found = elim (Bool-cases (u.tenant_id == tenant)) [
  | inr e ↦ e
  | inl e ↦
      let shut_there = subst (Closed db) (sym ((eq_iff u.tenant_id tenant).0 e)) shut in
      let none_active =
        any_imply_false (λ r. r.id == u.tenant_id && tenant_is_active r)
          (λ r. r.id == u.tenant_id && r.slug == slug && tenant_is_active r) db.tenants shut_there
          (λ r k. ground arith) in
      let fits = find_sound (matches_login slug login db) db.users found in ground arith
]

module _ (down : Faults) where
  -- One tenant was in the status `from`; it has the status `to` now, and an event says so.
  pub record IsTransition (c : LifecycleChange) (from to : TenantStatus) (db db' : Db)
      : Type 0 where
    pub one : count_where (is_in_status c.tenant_id from) db.tenants ≡ 1
    pub tenants :
        db'.tenants
        ≡ update_where (is_in_status c.tenant_id from) (with_status to c.occurred_at) db.tenants
    pub event : db'.audit_events ≡ lifecycle_event c to ∷ db.audit_events

  one_changed-ensures :
      (c : LifecycleChange) (n : ℕ) (db : Db)
      → Ensures (one_changed down c n) db (λ u db'. (n ≡ 1) × (db' ≡ db))
  unfolding one_changed
  one_changed-ensures c n db =
      ensures_if (nat_eq n 1) (λ e. ensures_pure _ (ground arith, refl))
        (λ e. then_query _ _ _ _ (
          ensures_if (any (λ t. t.id == c.tenant_id) db.tenants) (λ _. ensures_fail _)
            (λ _. ensures_fail _)))

  -- A change of status that succeeds has moved exactly one tenant, the one asked for, from the one
  -- status to the other, and has recorded one event for it.
  pub change_status_sound :
      (c : LifecycleChange) (from to : TenantStatus) (db : Db) {db' : Db}
      → change_status down c from to db ≡ (ok tt, db')
      → IsTransition c from to db db'
  unfolding change_status
  change_status_sound c from to db done =
      run-ensures {P = λ r d. IsTransition c from to db d}
        (then_control _ _ _ (
          then_exec _ _ _ _ _ _ (
            then_any _ _ (one_changed-ensures c _ _) λ u d (one, same). ensures_at same (
              then_exec _ _ _ _ _ _ (
                then_control _ _ _
                  (ensures_pure _ (record { one = one; tenants = refl; event = refl })))))))
        done

  module _ (new_id : ℕ → Result String) (now : ℕ) (actor : PlatformActor)
      (tenant reason correlation : String) (db : Db) where
    suspend-shut :
        {db' : Db}
        → suspend down new_id now actor tenant reason correlation db ≡ (ok tt, db')
        → Closed db' tenant
    unfolding suspend
    suspend-shut h =
        elim (Bool-cases (
          blank actor.administrator_id
          || blank actor.session_id
          || blank tenant
          || blank (trim_space reason)
          || blank (trim_space correlation))) [
            | inl e ↦ absurd (refused-not_ok _ db (rw e at h))
            | inr e ↦
                let (id, d, _, changed) = and_then-ok _ _ db (rw e at h) in
                let m = change_status_sound _ _ _ d (labelled_call-ok _ _ d changed) in
                subst (λ rows. any (λ r. r.id == tenant && tenant_is_active r) rows ≡ false)
                  (sym m.tenants)
                  (any-update_where-false _ _ _ d.tenants (λ t k. ground arith) (λ t k. still t k))
          ]
      where
        still :
            (t : Tenant)
            → is_in_status tenant TenantStatus.active t ≡ false
            → (t.id == tenant && tenant_is_active t) ≡ false
        still t k = by_status t.status (t.id == tenant) k
          where
            by_status :
                (s : TenantStatus) (b : Bool)
                → (b && same_status s TenantStatus.active) ≡ false
                → (b && elim s [ TenantStatus.active ↦ true | _ ↦ false ]) ≡ false
            by_status TenantStatus.active b h = h
            by_status TenantStatus.provisioning b h = ground arith
            by_status TenantStatus.suspended b h = ground arith

    -- After a suspension no access token of the tenant is accepted, and no login finds an account of
    -- the tenant.
    pub suspend_shuts_out :
        {db' : Db}
        → suspend down new_id now actor tenant reason correlation db ≡ (ok tt, db')
        → ((x : Session) (t : ℕ) (down' : Faults) (db'' : Db)
            → x.tenant_id ≡ tenant
            → validate_session down' x t db' ≢ (ok tt, db''))
          × ((slug login : String) (u : User)
              → find (matches_login slug login db') db'.users ≡ some u
              → (u.tenant_id == tenant) ≡ false)
    suspend_shuts_out {db'} done = (
      λ x t down' db'' same valid. false≢true (
          sym (validates-Closed x t db' (subst (Closed db') (sym same) (suspend-shut done)))
          ∙ validate_session_sound down' x t db' valid),
      λ slug login u found. matches_login-Closed tenant slug login u db' (suspend-shut done) found,
    )
