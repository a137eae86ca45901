-- ===== src/Locks.antt =====
-- The distributed lock manager: tugas-3/src/nodes/lock_manager.py.
pub mod State
pub mod Detector
pub mod Manager
pub mod Exclusion
pub mod Handover
pub mod Index
pub mod Safety
pub mod WaitFor
pub mod Search
pub mod Trace
pub mod Dfs
pub mod Cycles
pub mod Leader
pub mod Keys
pub mod Leases
pub mod Rounds
pub mod Acquire
pub mod Timeless
pub mod Still
pub mod Agreement
mod Tests
mod AcquireTests
