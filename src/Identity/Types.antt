-- ===== src/Identity/Types.antt =====
-- backend/internal/modules/identity/types.go and the types of service.go.
use modura.Prelude.{ℕ, String}

-- The verified tenant, user and session scope of a request.
pub record Actor : Type 0 where
  pub tenant_id : String
  pub user_id : String
  pub session_id : String

pub record Account : Type 0 where
  pub tenant_id : String
  pub user_id : String
  pub password_hash : String
  pub security_version : ℕ

pub record Session : Type 0 where
  pub id : String
  pub tenant_id : String
  pub user_id : String
  pub security_version : ℕ

pub record NewSession : Type 0 where
  pub session : Session
  pub family_id : String
  pub refresh_hash : String
  pub created_at : ℕ
  pub expires_at : ℕ

pub record TenantProvisioning : Type 0 where
  pub tenant_id : String
  pub slug : String
  pub display_name : String
  pub administrator_id : String
  pub username : String
  pub normalized_username : String
  pub email : String
  pub normalized_email : String
  pub invitation_id : String
  pub invitation_hash : String
  pub created_at : ℕ
  pub invitation_expires : ℕ

pub record Tokens : Type 0 where
  pub access_token : String
  pub refresh_token : String
  pub expires_in : ℕ
  pub refresh_expires_in : ℕ
