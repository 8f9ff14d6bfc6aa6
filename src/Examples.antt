-- ===== src/Examples.antt =====
-- A database of two tenants, on which the modules below run the operations.
pub mod Sessions
pub mod Accounts
pub mod Departments
pub mod Authorization
pub mod Casbin
pub mod Login
pub mod Writes
pub mod Auditing
pub mod Decisions
pub mod Granting
pub mod Lifecycle
pub mod Platform
pub mod Requests
pub mod Histories
pub mod Admissions
pub mod PlatformRequests
pub mod Configured
pub mod Tokens
pub mod Passwords
pub mod Encoding
pub mod Escapes
pub mod Provisions
pub mod Configurations
pub mod Overrides
pub mod Dictionaries
pub mod Stale
use modura.Prelude.{ℕ, String, Bool, true, false, Option, none, some, List, [], ◌∷◌, ℤ, pos}
use modura.Database.{
  TenantStatus, Tenant, UserStatus, User, AuthSession, OneTimePurpose, OneTimeToken, DepartmentRow,
  UserOrganization, RoleRow, DataScopeKind, RolePolicy, UserRole, UserRoleVersion, Db, empty_db,
}
use modura.Database.Tx.{Faults}

-- An environment in which the driver reports no error.
abbrev pub up : Faults
up label round = false

abbrev tenant : String → String → Tenant
tenant id slug = record {
  id = id;
  slug = slug;
  display_name = slug;
  status = TenantStatus.active;
  created_at = 1;
  updated_at = 1;
}

abbrev pub user : String → String → String → Option String → UserStatus → User
user t id name hash status = record {
  id = id;
  tenant_id = t;
  username = name;
  normalized_username = name;
  email = none;
  normalized_email = none;
  email_verified_at = none;
  password_hash = hash;
  status = status;
  security_version = 1;
  created_at = 1;
  updated_at = 1;
}

abbrev session : String → String → String → String → AuthSession
session user id family hash = record {
  id = id;
  tenant_id = "t1";
  user_id = user;
  family_id = family;
  refresh_token_hash = hash;
  security_version = 1;
  created_at = 10;
  last_used_at = 10;
  expires_at = 100;
  revoked_at = none;
  revocation_reason = none;
}

abbrev department : String → Option String → DepartmentRow
department id parent = record {
  id = id;
  tenant_id = "t1";
  parent_id = parent;
  name = id;
  normalized_name = id;
  sort_order = pos 0;
  created_at = 1;
  updated_at = 1;
}

abbrev member : String → String → UserOrganization
member user department = record {
  tenant_id = "t1";
  user_id = user;
  primary_department_id = department;
  position_id = none;
  created_at = 1;
  updated_at = 1;
}

abbrev role : String → Bool → RoleRow
role id reserved = record {
  id = id;
  tenant_id = "t1";
  code = id;
  name = id;
  reserved = reserved;
  version = 1;
  created_at = 1;
  updated_at = 1;
}

abbrev pub policy : String → String → String → DataScopeKind → List String → RolePolicy
policy role resource action scope ids = record {
  tenant_id = "t1";
  role_id = role;
  resource = resource;
  action = action;
  data_scope = scope;
  department_ids = ids;
}

abbrev grant : String → String → UserRole
grant user role = record { tenant_id = "t1"; user_id = user; role_id = role; created_at = 1 }

abbrev pub sample_departments : List DepartmentRow
sample_departments =
    department "west" (some "sales")
    ∷ department "sales" (some "root")
    ∷ department "lab" (some "root")
    ∷ department "root" none
    ∷ []

abbrev pub sample : Db
sample = record empty_db {
  tenants = tenant "t1" "acme" ∷ tenant "t2" "other" ∷ [];
  users =
      user "t1" "u1" "ann" (some "pw1") UserStatus.active
      ∷ user "t1" "u2" "bob" (some "pw2") UserStatus.active
      ∷ user "t1" "u3" "eve" none UserStatus.invited
      ∷ user "t2" "u4" "ann" (some "pw4") UserStatus.active
      ∷ [];
  auth_sessions =
      session "u1" "s1" "f1" "r1" ∷ session "u1" "s2" "f2" "r2" ∷ session "u2" "s3" "f3" "r3" ∷ [];
  one_time_tokens =
      (record {
        id = "k1";
        tenant_id = "t1";
        user_id = "u3";
        purpose = OneTimePurpose.invitation;
        token_hash = "invite";
        created_at = 10;
        expires_at = 100;
        consumed_at = none;
      })
      ∷ [];
  departments = sample_departments;
  user_organization = member "u1" "root" ∷ member "u2" "sales" ∷ [];
  roles = role "admin" true ∷ role "clerk" false ∷ role "guest" false ∷ [];
  role_policies =
      policy "admin" "organization.departments" "read" DataScopeKind.all []
      ∷ policy "clerk" "organization.departments" "read" DataScopeKind.department []
      ∷ policy "clerk" "organization.departments" "update" DataScopeKind.custom ("lab" ∷ [])
      ∷ [];
  user_roles = grant "u1" "admin" ∷ grant "u2" "clerk" ∷ [];
  user_role_versions =
      (record { tenant_id = "t1"; user_id = "u1"; version = 1; updated_at = 1 })
      ∷ (record { tenant_id = "t1"; user_id = "u2"; version = 1; updated_at = 1 })
      ∷ [];
}
