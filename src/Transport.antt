-- ===== src/Transport.antt =====
-- crates/arxia-transport: signed messages, simulated links, and the reassembly of messages from
-- fragments.
pub mod Messages
pub mod Simulated
pub mod Reassembly
