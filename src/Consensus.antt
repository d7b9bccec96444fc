-- ===== src/Consensus.antt =====
-- crates/arxia-consensus: the quorum test, votes and the choice between two conflicting blocks.
pub mod Quorum
pub mod Conflict
pub mod Enumeration
pub mod Vote
pub mod Delegation
mod Tests
