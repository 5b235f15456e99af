-- ===== src/Persistence.antt =====
-- The data persistence service: services/data-persistence/data_persistence.
pub mod BatchWriter
pub mod Worker
mod Tests
