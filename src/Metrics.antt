-- ===== src/Metrics.antt =====
-- Counters, gauges and histograms: tugas-3/src/utils/metrics.py.
pub mod Instruments
pub mod Sorting
pub mod Percentile
mod Tests
