-- ===== src/Authorization/Types.antt =====
-- backend/internal/modules/authorization/types.go.
use modura.Prelude.{ℕ, String, Bool, ◌&&◌, List, [], ◌∷◌, ◌==◌, contains}
use modura.Database.{DataScopeKind}
use modura.Identity.Types.{Actor}

abbrev pub departments : String
departments = "organization.departments"

abbrev pub positions : String
positions = "organization.positions"

abbrev pub user_organization : String
user_organization = "organization.user-organization"

abbrev pub roles : String
roles = "authorization.roles"

abbrev pub policies : String
policies = "authorization.policies"

abbrev pub user_roles : String
user_roles = "authorization.user-roles"

abbrev pub dictionaries : String
dictionaries = "settings.dictionaries"

abbrev pub configurations : String
configurations = "settings.configurations"

abbrev pub audit_events : String
audit_events = "audit.events"

abbrev pub resources : List String
resources =
    departments ∷ positions ∷ user_organization ∷ roles ∷ policies ∷ user_roles ∷ dictionaries
    ∷ configurations ∷ audit_events ∷ []

abbrev pub actions : List String
actions = "read" ∷ "create" ∷ "update" ∷ "delete" ∷ []

pub record Permission : Type 0 where
  pub resource : String
  pub action : String

-- Go's == on Permission
abbrev pub same_permission : Permission → Permission → Bool
same_permission a b = a.resource == b.resource && a.action == b.action

pub record Policy : Type 0 where
  pub permission : Permission
  pub scope : DataScopeKind
  pub department_ids : List String

pub record ResolvedDataScope : Type 0 where
  pub all : Bool
  pub self : Bool
  pub department : Bool
  pub department_and_descendants : Bool
  pub custom_department_ids : List String

pub record Role : Type 0 where
  pub id : String
  pub tenant_id : String
  pub code : String
  pub name : String
  pub reserved : Bool
  pub created_at : ℕ
  pub version : ℕ

pub record RoleView : Type 0 where
  pub id : String
  pub code : String
  pub name : String
  pub reserved : Bool
  pub version : ℕ

pub record RolePolicies : Type 0 where
  pub role_id : String
  pub policies : List Policy

pub record WriteContext : Type 0 where
  pub actor : Actor
  pub correlation_id : String

pub record UserRoleGrantSet : Type 0 where
  pub version : ℕ
  pub role_ids : List String

pub record RolePolicySet : Type 0 where
  pub version : ℕ
  pub reserved : Bool
  pub policies : List Policy

-- knownPermission
unfoldable pub known_permission : Permission → Bool
unfolding contains
known_permission p = contains p.action actions && contains p.resource resources
