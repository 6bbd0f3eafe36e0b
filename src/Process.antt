-- ===== src/Process.antt =====
-- pkg/process: processes with limits on their resources.
pub mod Memory
