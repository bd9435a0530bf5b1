-- ===== src/Services.antt =====
-- internal/application/services, one module for each service and one for their shared helpers.
pub mod Helpers
pub mod TenantSlots
pub mod Audits
pub mod Signing
pub mod Keys
pub mod Crypto
pub mod HsmKeys
pub mod Slots
