-- ===== src/Raft/Tests.antt =====
-- lab3/raft: concrete peers and messages, and a concrete encoding, at which the theorems apply.
mod Plain
mod Witnesses
mod Election
mod Network
