-- ===== src/Queue.antt =====
-- The sharded queue: tugas-3/src/nodes/queue_node.py.
mod Ring
mod State
mod Node
mod Moves
mod Replicas
mod Lap
mod Delivery
mod Requeue
mod Runs
mod Kept
mod Recovery
mod Tests
