-- ===== src/Cache.antt =====
-- The cache nodes: tugas-3/src/nodes/cache_node.py.
mod Policy
mod State
mod Node
mod Victims
mod Capacity
mod Bound
mod Runs
mod Mesi
mod Tests
