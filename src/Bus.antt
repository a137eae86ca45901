-- ===== src/Bus.antt =====
-- The message bus: tugas-3/src/communication/message_passing.py.
pub mod Message
pub mod State
pub mod Inbox
pub mod Delivery
pub mod Partition
mod Tests
