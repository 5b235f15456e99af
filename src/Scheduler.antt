-- ===== src/Scheduler.antt =====
-- The scheduler: services/scheduler/scheduler.
pub mod Task
pub mod Monitor
pub mod Policies
pub mod Adaptive
pub mod Engine
pub mod Tests
