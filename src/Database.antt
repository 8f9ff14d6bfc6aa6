-- ===== src/Database.antt =====
-- The tables of backend/internal/platform/database/migrations as records, one for each row type,
-- and the database as the record of its tables. An identifier (`uuid`) and a digest (`bytea`) are
-- texts, a `timestamptz` is the number of nanoseconds since 1970.
pub mod Constraints
pub mod Tx
use modura.Prelude.{ℕ, ℤ, String, Bool, true, false, Option, List, []}

-- 000002_identity_foundation.up.sql
pub data TenantStatus : Type 0 where
  provisioning active suspended : TenantStatus

pub record Tenant : Type 0 where
  pub id : String
  pub slug : String
  pub display_name : String
  pub status : TenantStatus
  pub created_at : ℕ
  pub updated_at : ℕ

pub data UserStatus : Type 0 where
  invited active disabled locked : UserStatus

pub record User : Type 0 where
  pub id : String
  pub tenant_id : String
  pub username : String
  pub normalized_username : String
  pub email : Option String
  pub normalized_email : Option String
  pub email_verified_at : Option ℕ
  pub password_hash : Option String
  pub status : UserStatus
  pub security_version : ℕ
  pub created_at : ℕ
  pub updated_at : ℕ

pub record AuthSession : Type 0 where
  pub id : String
  pub tenant_id : String
  pub user_id : String
  pub family_id : String
  pub refresh_token_hash : String
  pub security_version : ℕ
  pub created_at : ℕ
  pub last_used_at : ℕ
  pub expires_at : ℕ
  pub revoked_at : Option ℕ
  pub revocation_reason : Option String

pub record RefreshTokenUse : Type 0 where
  pub token_hash : String
  pub session_id : String
  pub family_id : String
  pub consumed_at : ℕ

-- Also identity.OneTimePurpose, whose two values the table's CHECK admits.
pub data OneTimePurpose : Type 0 where
  invitation password_reset : OneTimePurpose

pub record OneTimeToken : Type 0 where
  pub id : String
  pub tenant_id : String
  pub user_id : String
  pub purpose : OneTimePurpose
  pub token_hash : String
  pub created_at : ℕ
  pub expires_at : ℕ
  pub consumed_at : Option ℕ

-- 000003_organization_foundation.up.sql
pub record DepartmentRow : Type 0 where
  pub id : String
  pub tenant_id : String
  pub parent_id : Option String
  pub name : String
  pub normalized_name : String
  pub sort_order : ℤ
  pub created_at : ℕ
  pub updated_at : ℕ

pub data PositionStatus : Type 0 where
  active disabled : PositionStatus

pub record PositionRow : Type 0 where
  pub id : String
  pub tenant_id : String
  pub name : String
  pub normalized_name : String
  pub status : PositionStatus
  pub created_at : ℕ
  pub updated_at : ℕ

pub record UserOrganization : Type 0 where
  pub tenant_id : String
  pub user_id : String
  pub primary_department_id : String
  pub position_id : Option String
  pub created_at : ℕ
  pub updated_at : ℕ

-- 000004_authorization_and_provisioning.up.sql, 000007_authorization_policies.up.sql
pub record RoleRow : Type 0 where
  pub id : String
  pub tenant_id : String
  pub code : String
  pub name : String
  pub reserved : Bool
  pub version : ℕ
  pub created_at : ℕ
  pub updated_at : ℕ

-- The data scopes that the CHECK on role_policies.data_scope admits, and any other text.
pub data DataScopeKind : Type 0 where
  all self department department_descendants custom : DataScopeKind
  other : String → DataScopeKind

-- A row of role_policies with its rows of role_policy_departments.
pub record RolePolicy : Type 0 where
  pub tenant_id : String
  pub role_id : String
  pub resource : String
  pub action : String
  pub data_scope : DataScopeKind
  pub department_ids : List String

pub record UserRole : Type 0 where
  pub tenant_id : String
  pub user_id : String
  pub role_id : String
  pub created_at : ℕ

pub record UserRoleVersion : Type 0 where
  pub tenant_id : String
  pub user_id : String
  pub version : ℕ
  pub updated_at : ℕ

-- 000006_platform_tenant_audit.up.sql, 000008_audit_state_snapshots.up.sql. The column `result` is
-- left out: every INSERT of the source writes 'succeeded'. The states are kept as they are given, not
-- in the form in which a jsonb is read back.
pub data ActorType : Type 0 where
  platform_administrator tenant_user : ActorType

pub record AuditEvent : Type 0 where
  pub id : String
  pub actor_type : ActorType
  pub actor_id : String
  pub tenant_id : Option String
  pub action : String
  pub resource : String
  pub resource_id : String
  pub reason : String
  pub correlation_id : String
  pub occurred_at : ℕ
  pub before_state : Option String
  pub after_state : Option String

-- 000004_authorization_and_provisioning.up.sql
pub record ProvisioningRequest : Type 0 where
  pub idempotency_key : String
  pub request_digest : String
  pub tenant_id : String
  pub created_at : ℕ
  pub completed_at : ℕ

-- 000005_platform_identity.up.sql
pub data AdministratorStatus : Type 0 where
  active disabled locked : AdministratorStatus

pub record PlatformAdministrator : Type 0 where
  pub id : String
  pub username : String
  pub normalized_username : String
  pub password_hash : String
  pub status : AdministratorStatus
  pub security_version : ℕ
  pub created_at : ℕ
  pub updated_at : ℕ

pub record PlatformAuthSession : Type 0 where
  pub id : String
  pub administrator_id : String
  pub family_id : String
  pub refresh_token_hash : String
  pub security_version : ℕ
  pub created_at : ℕ
  pub last_used_at : ℕ
  pub expires_at : ℕ
  pub revoked_at : Option ℕ
  pub revocation_reason : Option String

pub record PlatformRefreshTokenUse : Type 0 where
  pub token_hash : String
  pub session_id : String
  pub family_id : String
  pub consumed_at : ℕ

-- 000009_settings_foundation.up.sql. The tables of tenants and the global ones are one list each: the
-- owner is the tenant, or none for a global row.
pub record DictionaryType : Type 0 where
  pub owner : Option String
  pub id : String
  pub code : String
  pub name : String
  pub version : ℕ
  pub created_at : ℕ
  pub updated_at : ℕ

pub record DictionaryItemRow : Type 0 where
  pub owner : Option String
  pub id : String
  pub dictionary_type_id : String
  pub code : String
  pub label : String
  pub sort_order : ℤ
  pub enabled : Bool
  pub created_at : ℕ
  pub updated_at : ℕ

pub record ConfigurationDefinition : Type 0 where
  pub id : String
  pub key : String
  pub name : String
  pub value_type : String
  pub tenant_overridable : Bool
  pub created_at : ℕ
  pub updated_at : ℕ

pub record ConfigurationValue : Type 0 where
  pub owner : Option String
  pub key : String
  pub value : String
  pub version : ℕ
  pub created_at : ℕ
  pub updated_at : ℕ

pub record Db : Type 0 where
  pub tenants : List Tenant
  pub users : List User
  pub auth_sessions : List AuthSession
  pub refresh_token_uses : List RefreshTokenUse
  pub one_time_tokens : List OneTimeToken
  pub departments : List DepartmentRow
  pub positions : List PositionRow
  pub user_organization : List UserOrganization
  pub roles : List RoleRow
  pub role_policies : List RolePolicy
  pub user_roles : List UserRole
  pub user_role_versions : List UserRoleVersion
  pub audit_events : List AuditEvent
  pub tenant_provisioning_requests : List ProvisioningRequest
  pub platform_administrators : List PlatformAdministrator
  pub platform_auth_sessions : List PlatformAuthSession
  pub platform_refresh_token_uses : List PlatformRefreshTokenUse
  pub dictionary_types : List DictionaryType
  pub dictionary_items : List DictionaryItemRow
  pub configuration_definitions : List ConfigurationDefinition
  pub configuration_values : List ConfigurationValue

abbrev pub empty_db : Db
empty_db = record {
  tenants = [];
  users = [];
  auth_sessions = [];
  refresh_token_uses = [];
  one_time_tokens = [];
  departments = [];
  positions = [];
  user_organization = [];
  roles = [];
  role_policies = [];
  user_roles = [];
  user_role_versions = [];
  audit_events = [];
  tenant_provisioning_requests = [];
  platform_administrators = [];
  platform_auth_sessions = [];
  platform_refresh_token_uses = [];
  dictionary_types = [];
  dictionary_items = [];
  configuration_definitions = [];
  configuration_values = [];
}
