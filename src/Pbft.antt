-- ===== src/Pbft.antt =====
-- The PBFT nodes: tugas-3/src/consensus/pbft.py.
mod Node
mod Applied
mod Quorums
mod Certified
mod Certificates
mod Steady
mod Agreement
mod Tests
