-- ===== src/Hsm.antt =====
-- internal/infrastructure/hsm
pub mod Pool
pub mod Context
pub mod Bootstrap
pub mod Manager
pub mod SoftHsm
