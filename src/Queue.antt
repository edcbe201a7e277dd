-- ===== src/Queue.antt =====
-- The queue worker of the adapter runtime (services/adapter-runtime/src).
pub mod Jobs
pub mod Worker
pub mod WorkerLaws
pub mod RetryLaws
pub mod JobLaws
