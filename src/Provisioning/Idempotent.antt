-- ===== src/Provisioning/Idempotent.antt =====
-- `Provision` acts once for an idempotency key.
use modura.Prelude.{
  String, Char, false, not, ◌==◌, ◌≡◌, ◌⊎◌, ◌≢◌, false≢true, Bool-cases, eq-true→eq, eq_iff, inl,
  inr, refl, sym, ap, subst, ◌∙◌, Option, none, some, find, find-cons_self, eq_refl, arith,
}
use modura.Errors.{Error, idempotency_conflict, cause, driver, Result, ok, err}
use modura.Database.{ProvisioningRequest, Db}
use modura.Database.Tx.{Faults, Tx, control, ◌>>=◌}
use modura.Database.Tx.Rules.{
  Ensures, ensures_pure, ensures_fail, ensures_if, then_control, then_query, then_exec, then_any,
  control-eq-ok, fails_then_control, fails_then_query,
}
use modura.Database.Tx.Runs.{run-ensures, run-splits}
use modura.Database.Tx.Failures.{Fails, fails_fail, fails_pure}
use modura.Provisioning.Later.{recorded, KeepsRequests, Later, Later-recorded}
use modura.Provisioning.{
  Provisioners, Request, Provisioned, ProvisioningEnvironment, canonical_request, request_row,
  record_request, create_tenant, unless_recorded, provision_canonical, provision,
}

-- The answer to a request whose key is recorded with the tenant.
abbrev pub prior_result : String → Provisioned
prior_result tenant = record {
  tenant_id = tenant;
  administrator_id = "";
  invitation_token = "";
  created = false;
}

ensures_control :
    {P : Unit {0} → Db → Type 0} {db : Db} (down : Faults) (label : String)
    → P tt db
    → Ensures (control down label) db P
ensures_control {P} {db} down label h = record {
  holds = λ u db' e. subst (P u) (control-eq-ok down label db e) h;
}

-- A step of which nothing is known.
after_anything :
    {A B : Type 0} {db : Db} {P : B → Db → Type 0} (m : Tx A) (f : A → Tx B)
    → ((a : A) (db1 : Db) → Ensures (f a) db1 P)
    → Ensures (m >>= f) db P
after_anything m f k =
    then_any {Q = λ a d. Unit {0}} m f (record { holds = λ a d e. tt }) (λ a d q. k a d)

module _ (lower : Char → Char) (env : ProvisioningEnvironment) (modules : Provisioners)
    (down : Faults) where
  -- A row of the request's key with its digest is there for the tenant.
  abbrev pub IsRecordedFor : Request → String → String → Db → Type 0
  IsRecordedFor r digest tenant db =
      (row : ProvisioningRequest) × (recorded r db ≡ some row)
      × (row.request_digest ≡ digest)
      × (row.tenant_id ≡ tenant)

  abbrev Returned : Request → String → Result Provisioned → Db → Type 0
  Returned r digest (err e) db = Unit
  Returned r digest (ok p) db = IsRecordedFor r digest p.tenant_id db

  record_request-ensures :
      (r : Request) (digest tenant event_id : String) (db : Db)
      → Ensures
          (record_request lower env modules down r digest tenant event_id)
          db
          (λ u db'. IsRecordedFor r digest tenant db')
  unfolding record_request
  record_request-ensures r digest tenant event_id db = then_exec _ _ _ _ _ _ (
      then_exec _ _ _ _ _ _ (
        ensures_control _ _ (
          request_row lower env modules down r digest tenant,
          find-cons_self (λ (row : ProvisioningRequest). row.idempotency_key == r.idempotency_key)
              db.tenant_provisioning_requests (eq_refl r.idempotency_key),
          refl,
          refl,
        )))

  create_tenant-ensures :
      (r : Request) (digest : String) (db : Db)
      → Ensures (create_tenant lower env modules down r digest) db (Returned r digest)
  unfolding create_tenant
  create_tenant-ensures r digest db = after_anything _ _ λ tenant d0.
      after_anything _ _ λ administrator d1. after_anything _ _ λ root d2.
        after_anything _ _ λ role d3. after_anything _ _ λ invitation_id d4.
          after_anything _ _ λ event d5. after_anything _ _ λ invitation d6.
            after_anything _ _ λ u7 d7. after_anything _ _ λ u8 d8. after_anything _ _ λ u9 d9.
              after_anything _ _ λ u10 d10.
                then_any _ _ (record_request-ensures r digest tenant event d10)
                  λ u11 d11 k. ensures_pure _ k

  unless_recorded-ensures :
      (r : Request) (digest : String) (db : Db) (o : Option ProvisioningRequest)
      → recorded r db ≡ o
      → Ensures (unless_recorded lower env modules down r digest o) db (Returned r digest)
  unfolding unless_recorded
  unless_recorded-ensures r digest db none h = create_tenant-ensures r digest db
  unless_recorded-ensures r digest db (some row) h =
      ensures_if (not (row.request_digest == digest)) (λ k. ensures_fail _)
        λ k. ensures_pure _ (row, h, eq-true→eq row.request_digest digest (ground arith), refl)

  -- A call that returns a tenant leaves the request recorded for it.
  provision_recorded :
      (request : Request) (r : Request) (digest : String) (db : Db) {p : Provisioned} {db' : Db}
      → canonical_request lower env modules down request ≡ ok (r, digest)
      → provision lower env modules down request db ≡ (ok p, db')
      → IsRecordedFor r digest p.tenant_id db'
  unfolding provision provision_canonical
  provision_recorded request r digest db canonical done =
      run-ensures
        (then_control _ _ _
          (then_control _ _ _ (then_query _ _ _ _ (unless_recorded-ensures r digest db _ refl))))
        (rw canonical at done)

  -- What is answered where a row is recorded under the key.
  abbrev pub Answer : String → ProvisioningRequest → Result Provisioned → Type 0
  Answer digest row x =
      ((row.request_digest ≡ digest) × (x ≡ ok (prior_result row.tenant_id)))
      ⊎ ((row.request_digest ≢ digest) × (x ≡ err idempotency_conflict))

  found_row-ensures :
      (r : Request) (digest : String) (db : Db) (o : Option ProvisioningRequest)
      (row : ProvisioningRequest)
      → o ≡ some row
      → Ensures
          (unless_recorded lower env modules down r digest o)
          db
          (λ x d. (row.request_digest ≡ digest) × (x ≡ ok (prior_result row.tenant_id)) × (d ≡ db))
  unfolding unless_recorded
  found_row-ensures r digest db none row h = cc
  found_row-ensures r digest db (some found) row h =
      ensures_if (not (found.request_digest == digest)) (λ k. ensures_fail _)
        λ k.
          let same : found ≡ row = cc h in
          ensures_pure _ (
            ap (λ (x : ProvisioningRequest). x.request_digest) (sym same)
                ∙ eq-true→eq found.request_digest digest (ground arith),
            ap (λ (x : ProvisioningRequest). ok (prior_result x.tenant_id)) same,
            refl,
          )

  abbrev IsRefusal : String → ProvisioningRequest → Error → Type 0
  IsRefusal digest row e =
      ((row.request_digest ≢ digest) × (e ≡ idempotency_conflict)) ⊎ (cause e ≡ driver)

  found_row-fails :
      (r : Request) (digest : String) (db : Db) (o : Option ProvisioningRequest)
      (row : ProvisioningRequest)
      → o ≡ some row
      → Fails (unless_recorded lower env modules down r digest o) db (IsRefusal digest row)
  unfolding unless_recorded
  found_row-fails r digest db none row h = cc
  found_row-fails r digest db (some found) row h =
      let same : found ≡ row = cc h in
      elim (Bool-cases (not (found.request_digest == digest))) [
        | inl differs ↦ rw differs (
            fails_fail _
              (inl (λ e. false≢true (ground (arith, eq_iff found.request_digest digest)), refl)))
        | inr equal ↦ rw equal (fails_pure _)
      ]

  -- A request whose key is recorded is answered by the record, and nothing changes.
  provision_answered :
      (request : Request) (r : Request) (digest : String) (row : ProvisioningRequest) (db : Db)
      {x : Result Provisioned} {db' : Db}
      → canonical_request lower env modules down request ≡ ok (r, digest)
      → recorded r db ≡ some row
      → provision lower env modules down request db ≡ (x, db')
      → (db' ≡ db) × (Answer digest row x ⊎ ((e : Error) × (x ≡ err e) × (cause e ≡ driver)))
  unfolding provision provision_canonical
  provision_answered request r digest row db {x} {db'} canonical there done =
      elim (run-splits
        (then_control _ _ _
          (then_control _ _ _ (then_query _ _ _ _ (found_row-ensures r digest db _ row there))))
        (fails_then_control _ _ _ (inr refl) (
          fails_then_control _ _ _ (inr refl)
            (fails_then_query _ _ _ _ (inr refl) (found_row-fails r digest db _ row there))))
        (rw canonical at done)) [
          | inl (same, given, kept) ↦ (kept, inl (inl (same, given)))
          | inr (e, failed, kept, inl (differs, conflict)) ↦
              (kept, inl (inr (differs, failed ∙ ap err conflict)))
          | inr (e, failed, kept, inr broken) ↦ (kept, inr (e, failed, broken))
        ]

-- Provisioning is idempotent. After a call that returned a tenant, and after any further calls with
-- any other requests, results, clocks, generators and faults, over modules that do not write the
-- table of the requests, and any other changes that leave that table as it is, a request under the
-- same key changes nothing: if it asks for the same, by the digest, it is answered with that tenant,
-- as not created and without an invitation; if it asks for something else it is refused as a
-- conflict; or the driver reports an error. The modules of the two calls may do whatever they do.
pub provision_idempotent :
    (lower : Char → Char) (env env' : ProvisioningEnvironment) (modules modules' : Provisioners)
    (others : Faults → Provisioners)
    → ((d : Faults) → KeepsRequests (others d))
    → (down down' : Faults) (request request' : Request) (r r' : Request) (digest digest' : String)
      (db : Db) {p : Provisioned} {x : Result Provisioned} {db' later db'' : Db}
    → canonical_request lower env modules down request ≡ ok (r, digest)
    → canonical_request lower env' modules' down' request' ≡ ok (r', digest')
    → r'.idempotency_key ≡ r.idempotency_key
    → provision lower env modules down request db ≡ (ok p, db')
    → Later others db' later
    → provision lower env' modules' down' request' later ≡ (x, db'')
    → (db'' ≡ later)
      × (((digest ≡ digest') × (x ≡ ok (prior_result p.tenant_id)))
          ⊎ ((digest ≢ digest') × (x ≡ err idempotency_conflict))
          ⊎ ((e : Error) × (x ≡ err e) × (cause e ≡ driver)))
provision_idempotent lower env env' modules modules' others keeps down down' request request' r r'
      digest digest' db {p} {x} {db'} {later} canonical canonical' same_key done since again =
    let (row, there, digested, tenant) =
      provision_recorded lower env modules down request r digest db canonical done in
    let found =
      ap
        (λ k.
          find (λ (y : ProvisioningRequest). y.idempotency_key == k)
            later.tenant_provisioning_requests)
        same_key
      ∙ Later-recorded others keeps r row there since in
    let (kept, answer) =
      provision_answered lower env' modules' down' request' r' digest' row later canonical' found
        again in
    (
      kept,
      elim answer [
        | inl (inl (same, given)) ↦
            inl (sym digested ∙ same, given ∙ ap (λ t. ok (prior_result t)) tenant)
        | inl (inr (differs, conflict)) ↦ inr (inl (λ e. differs (digested ∙ e), conflict))
        | inr broken ↦ inr (inr broken)
      ],
    )
