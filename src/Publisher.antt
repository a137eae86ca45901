-- ===== src/Publisher.antt =====
-- The load generator: uas/publisher/publisher.py.
pub mod Batches
pub mod Whole
pub mod Accounts
mod Tests
