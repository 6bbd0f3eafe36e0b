-- ===== src/Security.antt =====
-- pkg/security: which files the program may read and write.
pub mod Paths
pub mod AuditLog
pub mod FileGuard
pub mod KeyStore
