-- ===== src/Identity.antt =====
-- backend/internal/modules/identity: tenants, local users, credentials and login sessions.
pub mod Token
pub mod Password
pub mod Types
pub mod Rows
pub mod Sessions
pub mod AccountRows
pub mod Accounts
pub mod Service
