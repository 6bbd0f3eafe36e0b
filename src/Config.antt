-- ===== src/Config.antt =====
-- pkg/config: where the settings of the program are kept.
pub mod Store
pub mod FileStore
pub mod Manager
