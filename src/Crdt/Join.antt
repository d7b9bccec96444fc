-- ===== src/Crdt/Join.antt =====
-- The element-wise maximum of two maps, which `PNCounter::merge` and `CrdtVectorClock::merge`
-- write as the same loop, and its laws.
pub mod Laws
use arxia.Prelude.{ℕ, max, Option, none, some}
use arxia.Prelude.Ord.{Str, str_ord}
use arxia.Prelude.Map.{Map}
use arxia.Prelude.Map.Merge.{merge_by}

-- `let e = entry(k).or_insert(0); *e = (*e).max(v)`
abbrev pub raise : Option ℕ → ℕ → ℕ
raise none v = max 0 v
raise (some e) v = max e v

abbrev pub join : Map Str ℕ → Map Str ℕ → Map Str ℕ
join v other = merge_by raise v other
