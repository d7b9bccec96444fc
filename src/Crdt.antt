-- ===== src/Crdt.antt =====
-- crates/arxia-crdt: the replicated data types.
pub mod Join
pub mod VectorClock
pub mod PnCounter
pub mod OrSet
pub mod Reconciliation
pub mod Pruning
mod Tests
