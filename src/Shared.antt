-- ===== src/Shared.antt =====
-- What the services share: shared/shared/models.
pub mod Outcome
pub mod Telemetry
pub mod Tests
