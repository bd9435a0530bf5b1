-- ===== src/Domain.antt =====
-- internal/domain: errors, value objects and entities.
pub mod Errors
pub mod Values
pub mod Entities
