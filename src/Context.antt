-- ===== src/Context.antt =====
-- pkg/context/context.go
pub mod Section
pub mod Priority
pub mod Truncate
pub mod Assemble
pub mod Relatives
