-- ===== src/Tests.antt =====
-- Tests of the models at concrete inputs, and the theorems applied to such inputs.
mod Assistant
mod AuditLog
mod Blocks
mod Config
mod Errors
mod Fs
mod OpenAi
mod KeyStore
mod Parser
mod Process
mod Processor
mod Provider
mod Security
mod Watcher
mod Worker
mod Context
