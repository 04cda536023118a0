-- ===== src/Raft.antt =====
-- lab3/raft: one peer of the Raft cluster. State.antt has the types, Log.antt the accesses to the
-- log, Persist.antt stable storage, and the others a part of the protocol each.
pub mod State
pub mod Log
pub mod Persist
pub mod Terms
pub mod Vote
pub mod Append
pub mod Replicate
pub mod Ticker
pub mod Run
pub mod Cluster
pub mod Restart
pub mod Candidacy
pub mod Matching
pub mod Network
mod Tests
