-- ===== src/Watcher.antt =====
-- pkg/watcher: from changes of files to jobs.
pub mod Debouncer
pub mod Events
