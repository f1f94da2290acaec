-- ===== src/Server/Jobs.antt =====
-- internal/server/jobs.go: how a job's tasks are scheduled and run.
pub mod Conditions
pub mod Dependencies
pub mod Waves
pub mod World
pub mod Tasks
pub mod Execute
