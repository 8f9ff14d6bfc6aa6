-- ===== src/Organization.antt =====
-- backend/internal/modules/organization: departments, positions and user assignments.
pub mod Types
pub mod Tree
pub mod Departments
pub mod Members
pub mod History
pub mod Service
