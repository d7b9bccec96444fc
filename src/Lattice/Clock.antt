-- ===== src/Lattice/Clock.antt =====
-- `VectorClock` of crates/arxia-lattice/src/chain.rs: `tick` and `merge` with the cap on entries.
-- The comparisons are those of `arxia.Clock`.
pub mod Capped
use arxia.Prelude.{ℕ, Bool, not, ◌&&◌, [], ◌∷◌, length, leb, max, if◌then◌else◌}
use arxia.Prelude.Ord.{Str, str_ord}
use arxia.Prelude.Map.{Map, insert, contains_key}
use arxia.Prelude.Words.{saturating_add}
use arxia.Core.{max_vector_clock_entries}
use arxia.Clock.{count_of}

abbrev pub VectorClock : Type 0
VectorClock = Map Str ℕ

-- Whether the cap keeps `node_id` out.
abbrev pub is_refused : Str → VectorClock → Bool
is_refused node_id v = not (contains_key node_id v) && leb max_vector_clock_entries (length v)

pub tick : Str → VectorClock → VectorClock
tick node_id v =
    if is_refused node_id v then v else insert node_id (saturating_add (count_of node_id v) 1) v

-- One round of the loop of `merge`.
pub merge_entry : Str → ℕ → VectorClock → VectorClock
merge_entry node_id other_val v =
    if is_refused node_id v then v else insert node_id (max (count_of node_id v) other_val) v

unfoldable pub merge : VectorClock → VectorClock → VectorClock
merge v [] = v
merge v ((node_id, other_val) ∷ other) = merge (merge_entry node_id other_val v) other
