-- ===== src/Job.antt =====
-- The persistent jobs: the scheduler over a traced outside, and the lifecycle of its server.
pub mod World
pub mod Views
pub mod Scheduler
pub mod Server
