-- ===== src/Crdt/PnCounter.antt =====
-- crates/arxia-crdt/src/pn_counter.rs
pub mod Convergence
pub mod Balance
use arxia.Prelude.{ℕ, ◌-◌, ltb, leb, [], ◌∷◌, if◌then◌else◌}
use arxia.Prelude.Ord.{Str, str_ord}
use arxia.Prelude.Map.{Map, insert}
use arxia.Prelude.Map.Sums.{fold_values}
use arxia.Prelude.Words.{saturating_add}
use arxia.Prelude.Int.{ℤ, pos, negsuc, neg, i64_max, i64_min}
use arxia.Clock.{count_of}
use arxia.Crdt.Join.{join}

pub record PnCounter : Type 0 where
  pub p : Map Str ℕ
  pub n : Map Str ℕ

-- `PNCounter::new`
pub new : PnCounter
new = record { p = []; n = [] }

-- `let e = entry(node_id).or_insert(0); *e = e.saturating_add(amount)`
abbrev pub bump : Str → ℕ → Map Str ℕ → Map Str ℕ
bump node_id amount m = insert node_id (saturating_add (count_of node_id m) amount) m

abbrev pub increment : Str → ℕ → PnCounter → PnCounter
increment node_id amount c = record c { p = bump node_id amount c.p }

abbrev pub decrement : Str → ℕ → PnCounter → PnCounter
decrement node_id amount c = record c { n = bump node_id amount c.n }

-- The signed difference of `tp` and `tn`, which saturates.
pub signed_difference : ℕ → ℕ → ℤ
signed_difference tp tn =
    if leb tn tp
    then (if leb (tp - tn) i64_max then pos (tp - tn) else pos i64_max)
    else (if leb (tn - tp) i64_max then neg (tn - tp) else i64_min)

pub value : PnCounter → ℤ
value c = signed_difference (fold_values 0 c.p) (fold_values 0 c.n)

unfoldable pub merge : PnCounter → PnCounter → PnCounter
merge c other = record { p = join c.p other.p; n = join c.n other.n }
