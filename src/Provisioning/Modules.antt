-- ===== src/Provisioning/Modules.antt =====
-- The modules that the provisioning service is given: identity, organization and authorization. None
-- of them writes the table of the requests.
use modura.Prelude.{
  ℕ, String, Bool, ◌&&◌, if◌then◌else◌, count_where, not, ◌||◌, ◌==◌, ◌≡◌, refl, ◌∙◌, any,
  Bool-cases, inl, inr, blank, nat_eq,
}
use modura.Database.{Db}
use modura.Errors.{identity, IdentityError, message}
use modura.Database.Tx.{Faults, Tx}
use modura.Identity.AccountRows.{is_provisioning}
use modura.Database.Tx.Rules.{
  Ensures, ensures_pure, ensures_fail, ensures_if, then_exec, then_any, weaken,
}
use modura.Identity.Accounts
use modura.Organization.Members
use modura.Authorization.Store
use modura.Authorization.Store.Reserving.{create_reserved_role-keeps}
use modura.Authorization.Service as Roles
use modura.Authorization.StoreRows.{initialize_version, is_version_of}
use modura.Provisioning.{Provisioners}
use modura.Provisioning.Later.{Kept, KeepsRequests}

abbrev pub composed : Faults → Provisioners
composed down = record {
  provision_tenant = Accounts.provision_tenant down;
  activate_tenant = Accounts.activate_tenant down;
  provision_initial_organization = Members.provision_initial_organization down;
  provision_tenant_administrator = Roles.provision_tenant_administrator down;
}

if_kept :
    {A : Type 0} {db : Db} {P : A → Db → Type 0} (b : Bool) (m : Tx A)
    → Ensures m db P
    → (n : Tx A) → Ensures n db P
    → Ensures (if b then m else n) db P
if_kept b m k n l = ensures_if b (λ e. k) (λ e. l)

initialize_version-keeps :
    (t user : String) (now : ℕ) (db : Db)
    → (initialize_version t user now db).1.tenant_provisioning_requests
      ≡ db.tenant_provisioning_requests
initialize_version-keeps t user now db =
    elim (Bool-cases (any (is_version_of t user) db.user_role_versions)) [
      | inl e ↦ rw e
      | inr e ↦ rw e
    ]

module _ (down : Faults) where
  assign_role-Kept :
      (t user role : String) (now : ℕ) → Kept (Store.assign_role down t user role now)
  unfolding Store.assign_role
  assign_role-Kept t user role now db =
      then_exec _ _ _ _ _ _
        (then_exec _ _ _ _ _ _ (ensures_pure _ (initialize_version-keeps t user now _)))

  pub composed-KeepsRequests : KeepsRequests (composed down)
  unfolding Accounts.provision_tenant Accounts.activate_tenant
      Members.provision_initial_organization Roles.provision_tenant_administrator
  composed-KeepsRequests = record {
    tenant_kept = λ x db.
        then_exec _ _ _ _ _ _ (then_exec _ _ _ _ _ _ (then_exec _ _ _ _ _ _ (ensures_pure _ refl)));
    activation_kept = λ t at db. then_exec _ _ _ _ _ _ (
        if_kept (nat_eq (count_where (λ r. r.id == t && is_provisioning r) db.tenants) 1) _
          (ensures_pure _ refl) _ (ensures_fail (identity IdentityError.inactive_tenant)));
    organization_kept =
        λ x user db. then_exec _ _ _ _ _ _ (then_exec _ _ _ _ _ _ (ensures_pure _ refl));
    administrator_kept = λ x user db.
        if_kept
          (blank x.tenant_id
            || blank x.id
            || not (x.code == "tenant-admin")
            || blank user
            || not x.reserved)
          _ (ensures_fail (message "invalid tenant administrator role")) _
          (then_any _ _ (create_reserved_role-keeps down x db) λ u d1 same.
            weaken (assign_role-Kept x.tenant_id user x.id x.created_at d1)
              λ v d2 still. still ∙ same);
  }
