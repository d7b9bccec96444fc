-- ===== src/Gossip.antt =====
-- crates/arxia-gossip
pub mod NonceRegistry
pub mod Message
pub mod Node
mod Tests
