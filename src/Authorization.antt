-- ===== src/Authorization.antt =====
-- backend/internal/modules/authorization: roles, policies, grants and their evaluation.
pub mod Types
pub mod Policies
pub mod StoreRows
pub mod Store
pub mod Enforcer
pub mod Service
pub mod Management
