-- ===== src/Ingest.antt =====
-- The aggregator of uas: publish requests, a Redis stream, workers and a PostgreSQL database.
pub mod Schemas
pub mod Storage
pub mod Broker
pub mod Consumer
pub mod System
pub mod Audit
pub mod Once
pub mod Kept
pub mod Lossless
pub mod Published
mod Tests
