-- ===== src/Raft.antt =====
-- Raft consensus: tugas-3/src/consensus/raft.py.
pub mod State
pub mod Node
pub mod Handlers
pub mod Apply
pub mod Log
pub mod Commit
pub mod Following
pub mod Overcommit
pub mod Cluster
pub mod Ballots
pub mod Votes
pub mod Quiet
pub mod Accepts
pub mod Elected
pub mod Casting
pub mod Election
mod Tests
