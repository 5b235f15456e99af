-- ===== src/BatchAnalytics.antt =====
-- services/batch-analytics: the jobs and their cancellation.
pub mod JobRunner
pub mod Cancellation
pub mod Outcome
mod Tests
