-- ===== src/Lib.antt =====
-- Arxia is a block-lattice ledger for devices that are often offline: every account has a chain of
-- signed blocks of its own, a ledger indexes the chains, and nodes that meet exchange blocks, clocks
-- and registries, and agree on what is final.
--
-- The parts and the files that model them:
--
-- Lattice.Block (crates/arxia-lattice/src/block.rs and validation.rs): the block, its hash, the check
--   of one block (`verify_block`) and of a whole chain (`verify_chain_integrity`).
-- Lattice.Chain (crates/arxia-lattice/src/chain.rs): `AccountChain` with `open`, `send` and `receive`,
--   each as a function from the account, the clock and the time to the result, the account and the
--   clock; `open_account` is `open`. The key that the generator draws and the time are arguments.
-- Lattice.Clock (the same file): the `VectorClock` with its cap of 256 entries. Clock holds the
--   comparisons, which crates/arxia-crdt/src/vector_clock.rs writes in the same words.
-- Lattice.Ledger (crates/arxia-lattice/src/ledger.rs): `add_block` as its steps: `check_block`
--   (signature, supply, source), `touch` (the entry of the account), `check_position`, `index_block`
--   and `push`. `ingest` is a node that is offered blocks one after the other.
-- Lattice.Serialization (crates/arxia-lattice/src/serialization.rs): the form of 193 bytes.
-- Crdt (crates/arxia-crdt): `PNCounter`, `ORSet` and `CrdtVectorClock`; Crdt.Join is the loop of
--   element-wise maxima that two of them share. Crdt.Reconciliation (src/reconciliation.rs there):
--   `reconcile_partitions` as deduplication, the winners by account and nonce, the counters that the
--   winning blocks move, and the balances. Crdt.Pruning (src/pruning.rs there): expiry and the cap.
-- Gossip.NonceRegistry (crates/arxia-gossip/src/nonce_registry.rs): merging and synchronization.
-- Gossip.Message (crates/arxia-gossip/src/message.rs and signed_message.rs): the messages, their
--   validation and relaying, and the bytes that are signed.
-- Gossip.Node (crates/arxia-gossip/src/node.rs): `GossipNode` with its two caps; it admits a block by
--   `admit_block`, merges registries and evicts the oldest entries.
-- Finality (crates/arxia-finality/src/lib.rs): `assess_finality`, which reads the result of a nonce
--   synchronization, and the latch over it.
-- Consensus (crates/arxia-consensus/src/quorum.rs, vote.rs and conflict.rs): the quorum test, casting
--   and checking a vote, and the choice between two blocks by the stakes of their votes.
-- Consensus.Delegation (crates/arxia-consensus/src/delegation.rs): the graph of delegations with its
--   search for cycles, revocations, and the totals and snapshots of delegated stake.
-- Consensus.Enumeration (conflict.rs and orv.rs there): `detect_double_spend` and `collect_votes`.
-- Transport.Messages (crates/arxia-transport/src/traits.rs): messages and their signatures.
-- Transport.Simulated (crates/arxia-transport/src/sim/simulated.rs): the simulated link, with its
--   generator of random numbers. Transport.Simulated.Service relates what any calls return.
-- Transport.Reassembly (crates/arxia-transport/src/reassembly.rs): `Reassembler::feed` with its checks,
--   slots, eviction and delivery.
-- Relay (crates/arxia-relay/src/receipt.rs, slashing.rs and scoring.rs): receipts, slashing proofs, and
--   the score of a relay. Relay.Scoring.Reference says which of any calls count, and
--   Relay.Scoring.Credits what they come to.
-- Did (crates/arxia-did/src/lib.rs): identifiers made from keys and read from texts.
-- Storage (crates/arxia-storage/src/lib.rs): the storage in memory, its transactions and checksums.
-- Escrow (contracts/escrow/src/lib.rs) and TokenLock (contracts/token-lock/src/lib.rs): the contracts.
-- Core (crates/arxia-core) and Crypto (crates/arxia-crypto/src/ed25519.rs): constants, errors, and the
--   two checks of keys and signatures. Prelude: what the modules share.
--
-- Conventions. A string and a byte array are lists of bytes. A `HashMap`, `BTreeMap` or `HashSet`
-- is an association list in ascending order of its keys; a theorem that needs the order says so,
-- and no order is read off a `HashMap`: where the code iterates over one and the order shows, the
-- order is an argument (`iter` of Consensus.Delegation), except in Crdt.Reconciliation: of several
-- accounts in the red its error names the first in order, and its conflicts are listed by account and
-- nonce, where the code has the order of its map. A machine
-- integer is a natural number; the release profile has no overflow checks, so a plain `+` is
-- written as a sum modulo 2^64 (`wrap_add`), and the saturating and checked operations are written
-- out. A `Result` is a sum with a third outcome for a panic. An error carries what the code
-- compares or returns; a text that a library words is left out. A method that takes `&mut self`
-- returns the state after the call next to its result, on every branch.
--
-- The third-party crates (`ed25519_dalek`, `hex`, `blake3`, `serde_json`, `bs58`) are the fields of
-- `Primitives`, `Host` and `Base58`, arguments of all that calls them. What theorems rest on is
-- stated in `IsHex`, `IsDigest`, `IsBlake3`, `IsSigner` and `IsBase58`; Crypto.Toy gives an
-- instance that computes, at which the theorems are applied in the modules named Tests. Most loops
-- are recursions over lists and end. Fuel is given to `decimal`, which writes the at most 20 digits
-- of a `u64`; to the search of Consensus.Delegation, which has one more than the number of all
-- neighbours, each account being expanded once; and to `shrink` of Gossip.Node, which has the
-- length of the order that it shortens.
--
-- Not modelled: the protocol messages (generated, with three guards of one comparison each), the
-- random generation of keys, encryption and secret sharing, the success rates of relays and the
-- loss rate of links (floating-point numbers), `ConcurrentMemoryStorage` (the storage behind a
-- lock), binaries, bindings and benches.
pub mod Prelude
pub mod Crypto
pub mod Did
pub mod Escrow
pub mod TokenLock
pub mod Core
pub mod Crdt
pub mod Clock
pub mod Lattice
pub mod Storage
pub mod Gossip
pub mod Finality
pub mod Consensus
pub mod Transport
pub mod Relay
