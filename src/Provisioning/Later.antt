-- ===== src/Provisioning/Later.antt =====
-- The databases after a provisioning: what other calls of `Provision`, and all else, leave of the
-- requests that are recorded.
use modura.Prelude.{
  ℕ, String, Char, false, not, ◌==◌, ◌≡◌, refl, sym, ap, ◌∙◌, Bool-cases, eq_iff, inl, inr, Option,
  none, some, find,
}
use modura.Errors.{Result, ok, err}
use modura.Database.{ProvisioningRequest, Db}
use modura.Database.Tx.{Faults, Tx, ◌>>=◌}
use modura.Database.Tx.Rules.{
  Ensures, ensures_pure, ensures_fail, ensures_if, ensures_labelled, ensures_from_result,
  then_control, then_query, then_exec, then_any, weaken, control-eq-ok,
}
use modura.Database.Tx.Runs.{run-cases}
use modura.Identity.Types.{TenantProvisioning}
use modura.Organization.Types.{Department}
use modura.Authorization.Types.{Role}
use modura.Provisioning.{
  Provisioners, Request, Provisioned, ProvisioningEnvironment, canonical_request, next_id,
  record_request, create_tenant, unless_recorded, provision_canonical, provision,
}

abbrev pub recorded : Request → Db → Option ProvisioningRequest
recorded r db =
    find (λ row. row.idempotency_key == r.idempotency_key) db.tenant_provisioning_requests

-- A step that leaves the recorded requests as they are.
abbrev pub Kept : {A : Type 0} → Tx A → Type 0
Kept {A} m =
    (db : Db)
    → Ensures m db (λ a d. d.tenant_provisioning_requests ≡ db.tenant_provisioning_requests)

-- The modules do not write the table of the requests.
pub record KeepsRequests (modules : Provisioners) : Type 0 where
  pub tenant_kept : (x : TenantProvisioning) → Kept (modules.provision_tenant x)
  pub activation_kept : (t : String) (at : ℕ) → Kept (modules.activate_tenant t at)
  pub organization_kept :
      (x : Department) (user : String) → Kept (modules.provision_initial_organization x user)
  pub administrator_kept :
      (x : Role) (user : String) → Kept (modules.provision_tenant_administrator x user)

-- The database after any calls of `Provision`, with whatever requests, results, clocks, generators
-- and faults, and any other changes that leave the table of the requests as it is.
pub data Later (others : Faults → Provisioners) (db : Db) : Db → Type 0 where
  start : Later others db db
  elsewhere :
      {d1 d2 : Db}
      → Later others db d1
      → d2.tenant_provisioning_requests ≡ d1.tenant_provisioning_requests
      → Later others db d2
  another :
      {d1 d2 : Db} (lower : Char → Char) (env : ProvisioningEnvironment) (down : Faults)
      (request : Request) (x : Result Provisioned)
      → Later others db d1
      → provision lower env (others down) down request d1 ≡ (x, d2)
      → Later others db d2

through :
    {A B : Type 0} (db : Db) {d : Db} {P : B → Db → Type 0} (m : Tx A) (f : A → Tx B)
    → Kept m
    → d.tenant_provisioning_requests ≡ db.tenant_provisioning_requests
    → ((a : A) (d1 : Db)
        → d1.tenant_provisioning_requests ≡ db.tenant_provisioning_requests
        → Ensures (f a) d1 P)
    → Ensures (m >>= f) d P
through db {d} m f kept same k = then_any m f (kept d) (λ a d1 here. k a d1 (here ∙ same))

module _ (lower : Char → Char) (env : ProvisioningEnvironment) (modules : Provisioners)
    (down : Faults) (keeps : KeepsRequests modules) (r : Request) (row : ProvisioningRequest) where
  next_id-Kept : (k : ℕ) → Kept (next_id lower env modules down k)
  unfolding next_id
  next_id-Kept k db =
      weaken (ensures_labelled _ _ (ensures_from_result (env.new_id k env.now)))
        λ a d (_, same). ap (λ (x : Db). x.tenant_provisioning_requests) same

  -- Another key is recorded in front of the row.
  record_request-keeps :
      (r2 : Request) (digest tenant event_id : String) (db d : Db)
      → d.tenant_provisioning_requests ≡ db.tenant_provisioning_requests
      → recorded r db ≡ some row
      → (r2.idempotency_key == r.idempotency_key) ≡ false
      → Ensures
          (record_request lower env modules down r2 digest tenant event_id)
          d
          (λ u d'. recorded r d' ≡ some row)
  unfolding record_request find
  record_request-keeps r2 digest tenant event_id db d same there differs = then_exec _ _ _ _ _ _ (
      then_exec _ _ _ _ _ _ (record {
        holds =
            λ u d' e. ap (recorded r) (sym (control-eq-ok down _ _ e)) ∙ rw (differs, same) there;
      }))

  create_tenant-keeps :
      (r2 : Request) (digest : String) (db : Db)
      → recorded r db ≡ some row
      → (r2.idempotency_key == r.idempotency_key) ≡ false
      → Ensures
          (create_tenant lower env modules down r2 digest)
          db
          (λ x d'. recorded r d' ≡ some row)
  unfolding create_tenant
  create_tenant-keeps r2 digest db there differs =
      through db _ _ (next_id-Kept 0) refl λ tenant d0 s0.
        through db _ _ (next_id-Kept 1) s0 λ administrator d1 s1.
          through db _ _ (next_id-Kept 2) s1 λ root d2 s2.
            through db _ _ (next_id-Kept 3) s2 λ role d3 s3.
              through db _ _ (next_id-Kept 4) s3 λ invitation_id d4 s4.
                through db _ _ (next_id-Kept 5) s4 λ event d5 s5.
                  through db _ _
                    (λ d.
                      weaken (ensures_labelled _ _ (ensures_from_result env.new_secret))
                        λ a d' (_, same). ap (λ (x : Db). x.tenant_provisioning_requests) same)
                    s5
                    λ invitation d6 s6. through db _ _ (keeps.tenant_kept _) s6 λ u7 d7 s7.
                      through db _ _ (keeps.organization_kept _ _) s7 λ u8 d8 s8.
                        through db _ _ (keeps.administrator_kept _ _) s8 λ u9 d9 s9.
                          through db _ _ (keeps.activation_kept _ _) s9 λ u10 d10 s10.
                            then_any _ _
                              (record_request-keeps r2 digest tenant event db d10 s10 there differs)
                              λ u11 d11 k. ensures_pure _ k

  unless_recorded-keeps :
      (r2 : Request) (digest : String) (db : Db) (o : Option ProvisioningRequest)
      → recorded r2 db ≡ o
      → recorded r db ≡ some row
      → Ensures
          (unless_recorded lower env modules down r2 digest o)
          db
          (λ x d'. recorded r d' ≡ some row)
  unfolding unless_recorded
  unless_recorded-keeps r2 digest db none free there =
      elim (Bool-cases (r2.idempotency_key == r.idempotency_key)) [
        | inr differs ↦ create_tenant-keeps r2 digest db there differs
        | inl same ↦
            let key : r2.idempotency_key ≡ r.idempotency_key =
              (eq_iff r2.idempotency_key r.idempotency_key).0 same in
            let found : recorded r2 db ≡ some row =
              ap
                (λ k.
                  find (λ (y : ProvisioningRequest). y.idempotency_key == k)
                    db.tenant_provisioning_requests)
                key
              ∙ there in
            absurd (cc (found, free))
      ]
  unless_recorded-keeps r2 digest db (some other) taken there =
      ensures_if (not (other.request_digest == digest)) (λ k. ensures_fail _)
        λ k. ensures_pure _ there

  canonical-keeps :
      (c : Result (Request × String)) (db : Db) {x : Result Provisioned} {d' : Db}
      → recorded r db ≡ some row
      → provision_canonical lower env modules down c db ≡ (x, d')
      → recorded r d' ≡ some row
  unfolding provision_canonical
  canonical-keeps (err e) db {x} {d'} there h = elim (run-cases _ db h) [
    | inl done ↦ (ensures_fail {P = λ x d. recorded r d ≡ some row} e).holds x d' done
    | inr (e', wrong, same) ↦ ap (recorded r) same ∙ there
  ]
  canonical-keeps (ok (r2, digest)) db {x} {d'} there h = elim (run-cases _ db h) [
    | inl done ↦
        (then_control {P = λ x d. recorded r d ≡ some row} _ _ _ (
            then_control _ _ _
              (then_query _ _ _ _ (unless_recorded-keeps r2 digest db _ refl there)))).holds
          x d' done
    | inr (e, wrong, same) ↦ ap (recorded r) same ∙ there
  ]

pub Later-recorded :
    (others : Faults → Provisioners)
    → ((down : Faults) → KeepsRequests (others down))
    → (r : Request) (row : ProvisioningRequest) {db db' : Db} → recorded r db ≡ some row
    → Later others db db'
    → recorded r db' ≡ some row
unfolding provision
Later-recorded others keeps r row there start = there
Later-recorded others keeps r row there (elsewhere before same) =
    ap (find (λ (y : ProvisioningRequest). y.idempotency_key == r.idempotency_key)) same
    ∙ Later-recorded others keeps r row there before
Later-recorded others keeps r row there (another {d1} {d2} lower env down request x before done) =
    canonical-keeps lower env (others down) down (keeps down) r row
      (canonical_request lower env (others down) down request) d1
      (Later-recorded others keeps r row there before) done
