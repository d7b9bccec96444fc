-- ===== src/Relay.antt =====
-- crates/arxia-relay: receipts, slashing proofs and the score of a relay.
pub mod Signed
pub mod Scoring
