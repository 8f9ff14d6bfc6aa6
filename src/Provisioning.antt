-- ===== src/Provisioning.antt =====
-- backend/internal/modules/provisioning/service.go: the atomic creation of a tenant across the modules,
-- once for each idempotency key. The modules are the service's three interfaces; `encode` is
-- json.Marshal of the fields that the digest covers. The advisory lock has no effect on serial
-- transactions.
pub mod Later
pub mod Modules
pub mod Idempotent
use modura.Prelude.{
  ℕ, ◌+◌, String, Char, Bool, true, false, not, ◌||◌, ◌==◌, Option, none, some, ◌∷◌, pos, blank,
  find, if◌then◌else◌,
}
use modura.Errors.{idempotency_conflict, message, Result, ok, err, wrapped}
use modura.Text.{trim_space, map_runes}
use modura.Database.{ProvisioningRequest, ActorType, AuditEvent}
use modura.Database.Tx.{
  Faults, Tx, Op, pure, fail, control, query, exec, run, refuse, labelled, from_result, ◌>>=◌, ◌>>◌,
}
use modura.Identity.Types.{TenantProvisioning}
use modura.Organization.Types.{Department}
use modura.Authorization.Types.{Role}
use modura.PlatformAdmin.{PlatformActor}

-- Identity, Organization and Authorization.
pub record Provisioners : Type 0 where
  pub provision_tenant : TenantProvisioning → Tx (Unit {0})
  pub activate_tenant : String → ℕ → Tx (Unit {0})
  pub provision_initial_organization : Department → String → Tx (Unit {0})
  pub provision_tenant_administrator : Role → String → Tx (Unit {0})

pub record Request : Type 0 where
  pub idempotency_key : String
  pub slug : String
  pub display_name : String
  pub root_department_name : String
  pub administrator_username : String
  pub administrator_email : String
  pub actor : PlatformActor
  pub reason : String
  pub correlation_id : String

pub record Provisioned : Type 0 where
  pub tenant_id : String
  pub administrator_id : String
  pub invitation_token : String
  pub created : Bool

pub record DigestInput : Type 0 where
  pub slug : String
  pub display_name : String
  pub root_department_name : String
  pub administrator_username : String
  pub administrator_email : String

-- `new_id k` is the identifier at index k.
pub record ProvisioningEnvironment : Type 0 where
  pub now : ℕ
  pub new_id : ℕ → ℕ → Result String
  pub new_secret : Result String
  pub hash_token : String → String
  pub encode : DigestInput → Result String
  pub sha256 : String → String
  pub invitation_lifetime : ℕ

module _ (lower : Char → Char) (env : ProvisioningEnvironment) (modules : Provisioners)
    (down : Faults) where
  abbrev normalize : String → String
  normalize s = map_runes lower (trim_space s)

  unfoldable pub trimmed_request : Request → Request
  trimmed_request r = record r {
    idempotency_key = trim_space r.idempotency_key;
    slug = normalize r.slug;
    display_name = trim_space r.display_name;
    root_department_name = trim_space r.root_department_name;
    administrator_username = trim_space r.administrator_username;
    administrator_email = trim_space r.administrator_email;
    reason = trim_space r.reason;
    correlation_id = trim_space r.correlation_id;
  }

  abbrev pub digest_input : Request → DigestInput
  digest_input r = record {
    slug = r.slug;
    display_name = r.display_name;
    root_department_name = r.root_department_name;
    administrator_username = r.administrator_username;
    administrator_email = r.administrator_email;
  }

  abbrev incomplete : Request → Bool
  incomplete r =
      blank r.idempotency_key
      || blank r.slug
      || blank r.display_name
      || blank r.root_department_name
      || blank r.administrator_username
      || blank r.actor.administrator_id
      || blank r.actor.session_id
      || blank r.reason
      || blank r.correlation_id

  digested : Request → Result String → Result (Request × String)
  digested r (err e) = err e
  digested r (ok encoded) = ok (r, env.sha256 encoded)

  with_digest : Request → Result (Request × String)
  unfolding digested
  with_digest r =
      if incomplete r
      then err (message "invalid tenant provisioning request")
      else digested r (wrapped "encode tenant provisioning request" (env.encode (digest_input r)))

  -- canonicalRequest
  unfoldable pub canonical_request : Request → Result (Request × String)
  unfolding trimmed_request with_digest
  canonical_request r = with_digest (trimmed_request r)

  abbrev pub request_row : Request → String → String → ProvisioningRequest
  request_row r digest tenant = record {
    idempotency_key = r.idempotency_key;
    request_digest = digest;
    tenant_id = tenant;
    created_at = env.now;
    completed_at = env.now;
  }

  abbrev provisioned_event : String → Request → String → AuditEvent
  provisioned_event id r tenant = record {
    id = id;
    actor_type = ActorType.platform_administrator;
    actor_id = r.actor.administrator_id;
    tenant_id = some tenant;
    action = "tenant.provisioned";
    resource = "tenant";
    resource_id = tenant;
    reason = r.reason;
    correlation_id = r.correlation_id;
    occurred_at = env.now;
    before_state = none;
    after_state = none;
  }

  abbrev identity_input : Request → String → String → String → String → TenantProvisioning
  identity_input r tenant administrator invitation_id invitation = record {
    tenant_id = tenant;
    slug = r.slug;
    display_name = r.display_name;
    administrator_id = administrator;
    username = r.administrator_username;
    normalized_username = normalize r.administrator_username;
    email = r.administrator_email;
    normalized_email = normalize r.administrator_email;
    invitation_id = invitation_id;
    invitation_hash = env.hash_token invitation;
    created_at = env.now;
    invitation_expires = env.now + env.invitation_lifetime;
  }

  abbrev root_department : Request → String → String → Department
  root_department r tenant id = record {
    id = id;
    tenant_id = tenant;
    parent_id = none;
    name = r.root_department_name;
    normalized_name = normalize r.root_department_name;
    sort_order = pos 0;
    created_at = env.now;
  }

  abbrev administrator_role : String → String → Role
  administrator_role tenant id = record {
    id = id;
    tenant_id = tenant;
    code = "tenant-admin";
    name = "Tenant Administrator";
    reserved = true;
    created_at = env.now;
    version = 0;
  }

  -- ids[k]
  next_id : ℕ → Tx String
  next_id k = labelled "generate provisioning ID" (from_result (env.new_id k env.now))

  -- The request and its event, after the modules have created the tenant.
  unfoldable pub record_request : Request → String → String → String → Tx (Unit {0})
  record_request r digest tenant event_id = do
    exec down "record tenant provisioning request" (λ db. (
      1,
      record db {
        tenant_provisioning_requests =
            request_row r digest tenant ∷ db.tenant_provisioning_requests;
      },
    ))
    exec down "record tenant provisioning audit" (λ db.
        (1, record db { audit_events = provisioned_event event_id r tenant ∷ db.audit_events }))
    control down "commit tenant provisioning"

  create_tenant : Request → String → Tx (Result Provisioned)
  unfolding next_id record_request
  create_tenant r digest = do
    tenant ← next_id 0
    administrator ← next_id 1
    root_id ← next_id 2
    role_id ← next_id 3
    invitation_id ← next_id 4
    event_id ← next_id 5
    invitation ← labelled "generate administrator invitation" (from_result env.new_secret)
    modules.provision_tenant (identity_input r tenant administrator invitation_id invitation)
    modules.provision_initial_organization (root_department r tenant root_id) administrator
    modules.provision_tenant_administrator (administrator_role tenant role_id) administrator
    modules.activate_tenant tenant env.now
    record_request r digest tenant event_id
    pure (
        ok (record {
          tenant_id = tenant;
          administrator_id = administrator;
          invitation_token = invitation;
          created = true;
        }))

  unless_recorded : Request → String → Option ProvisioningRequest → Tx (Result Provisioned)
  unfolding create_tenant
  unless_recorded r digest none = create_tenant r digest
  unless_recorded r digest (some row) =
      if not (row.request_digest == digest)
      then fail idempotency_conflict
      else pure (
          ok (record {
            tenant_id = row.tenant_id;
            administrator_id = "";
            invitation_token = "";
            created = false;
          }))

  provision_canonical : Result (Request × String) → Op Provisioned
  unfolding unless_recorded
  provision_canonical (err e) = refuse e
  provision_canonical (ok (r, digest)) = run do
    control down "begin tenant provisioning"
    control down "lock tenant provisioning key"
    found ← query down "read tenant provisioning request" (λ db.
        find (λ row. row.idempotency_key == r.idempotency_key) db.tenant_provisioning_requests)
    unless_recorded r digest found

  -- Provision
  unfoldable pub provision : Request → Op Provisioned
  unfolding provision_canonical canonical_request
  provision request = provision_canonical (canonical_request request)
