-- ===== src/Crdt/VectorClock.antt =====
-- crates/arxia-crdt/src/vector_clock.rs: `CrdtVectorClock`. Its `happened_before` and
-- `is_concurrent` are those of `arxia.Clock`.
use arxia.Prelude.{ℕ}
use arxia.Prelude.Ord.{Str, str_ord}
use arxia.Prelude.Map.{Map, insert}
use arxia.Prelude.Words.{wrap_add}
use arxia.Clock.{count_of}
use arxia.Crdt.Join.{join}

abbrev CrdtVectorClock : Type 0
CrdtVectorClock = Map Str ℕ

unfoldable pub tick : Str → CrdtVectorClock → CrdtVectorClock
tick node_id v = insert node_id (wrap_add (count_of node_id v) 1) v

abbrev pub merge : CrdtVectorClock → CrdtVectorClock → CrdtVectorClock
merge v other = join v other
