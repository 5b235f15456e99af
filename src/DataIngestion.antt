-- ===== src/DataIngestion.antt =====
-- services/data-ingestion: from an MQTT message to an entry of the stream `raw_telemetry`.
pub mod StreamMonitor
pub mod Ingest
pub mod Subscriber
pub mod Delivery
pub mod Defaults
mod Tests
