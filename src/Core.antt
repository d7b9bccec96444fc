-- ===== src/Core.antt =====
-- crates/arxia-core: the shared errors and the protocol constants.
pub mod Errors
use arxia.Prelude.{ℕ, ◌*◌}
pub use Errors.*

-- crates/arxia-core/src/constants.rs
abbrev pub max_vector_clock_entries : ℕ
max_vector_clock_entries = 256

abbrev pub l0_cap_micro_arx : ℕ
l0_cap_micro_arx = 10_000_000

abbrev pub compact_block_size : ℕ
compact_block_size = 193

abbrev one_arx : ℕ
one_arx = 1_000_000

abbrev pub total_supply_micro_arx : ℕ
total_supply_micro_arx = 1_000_000_000 * one_arx

abbrev pub max_initial_balance_per_account : ℕ
max_initial_balance_per_account = 100_000_000 * one_arx
