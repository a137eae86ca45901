-- ===== src/Aggregator.antt =====
-- The log aggregator of the midterm: uts/src/service.py and uts/src/store.py.
mod Store
mod Service
mod Counts
mod Tests
