-- ===== src/Lattice.antt =====
-- crates/arxia-lattice: blocks and their hashes, the checks of blocks and chains, the account chain
-- that makes blocks, the ledger that admits them, and their compact bytes.
pub mod Block
pub mod Clock
pub mod Chain
pub mod Ledger
pub mod Serialization
pub mod Tests
mod LedgerTests
