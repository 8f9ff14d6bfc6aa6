-- ===== src/Settings.antt =====
-- backend/internal/modules/settings: dictionaries and configurations, global and of tenants.
pub mod Types
pub mod Values
pub mod Dictionaries
pub mod Configurations
pub mod Service
