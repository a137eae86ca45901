-- ===== src/Detector.antt =====
-- The failure detector: tugas-3/src/communication/failure_detector.py.
mod Health
mod Silence
mod Tests
