-- ===== src/Fs.antt =====
-- pkg/fs/memory/fs.go: the file system in memory, and its open files.
pub mod Memory
pub mod File
