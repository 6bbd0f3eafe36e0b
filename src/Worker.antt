-- ===== src/Worker.antt =====
-- pkg/worker: the pool of workers that runs the jobs.
pub mod Pool
