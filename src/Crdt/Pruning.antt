-- ===== src/Crdt/Pruning.antt =====
-- crates/arxia-crdt/src/pruning.rs: the expiry of clock entries, and the cap on their number.
mod Sorting
mod Eviction
mod Expiry
mod Tests
use Prim.Native.Nat.{compare}
use Prim.Native.Nat.Ordering.{lt, eq, gt}
use arxia.Prelude.{
  ℕ, ◌-◌, Bool, true, false, List, [], ◌∷◌, length, take, leb, ltb, ◌==◌, if◌then◌else◌,
}
use arxia.Prelude.Ord.{cmp_str, str_ord}
use arxia.Prelude.Map.{Map, remove}
use arxia.Prelude.Words.{Bytes, saturating_mul}

abbrev secs_per_day : ℕ
secs_per_day = 86_400

pub data PruningResult : Type 0 where
  clean : PruningResult
  expired_removed : ℕ → PruningResult
  forced_pruning : ℕ → PruningResult

pub record VectorClockEntry : Type 0 where
  pub counter : ℕ
  pub last_seen_unix : ℕ

abbrev pub ClockEntries : Type 0
ClockEntries = Map Bytes VectorClockEntry

-- `age_secs < expiry_threshold_secs`
abbrev is_live : ℕ → ℕ → VectorClockEntry → Bool
is_live expiry_days reference_time_unix entry =
    ltb (reference_time_unix - entry.last_seen_unix) (saturating_mul expiry_days secs_per_day)

-- `clock.retain(…)`
pub retain_live : ℕ → ℕ → ClockEntries → ClockEntries
retain_live expiry_days reference_time_unix [] = []
retain_live expiry_days reference_time_unix ((id, entry) ∷ clock) =
    let rest = retain_live expiry_days reference_time_unix clock in
    if is_live expiry_days reference_time_unix entry then (id, entry) ∷ rest else rest

pub prune_expired : ClockEntries → ℕ → ℕ → PruningResult × ClockEntries
prune_expired clock expiry_days reference_time_unix =
    let kept = retain_live expiry_days reference_time_unix clock in
    let removed = length clock - length kept in
    (if removed == 0 then clean else expired_removed removed, kept)

-- `iter().map(|(id, entry)| (*id, entry.counter))`
pub entries_of : ClockEntries → List (Bytes × ℕ)
entries_of [] = []
entries_of ((id, entry) ∷ clock) = (id, entry.counter) ∷ entries_of clock

-- The order of the sort is not `Greater`.
abbrev precedes : Bytes × ℕ → Bytes × ℕ → Bool
precedes a b = elim (compare a.1 b.1) [
  | lt ↦ true
  | gt ↦ false
  | eq ↦ elim (cmp_str a.0 b.0) [ gt ↦ false | _ ↦ true ]
]

pub place : Bytes × ℕ → List (Bytes × ℕ) → List (Bytes × ℕ)
place x [] = x ∷ []
place x (y ∷ ys) = let rest = place x ys in if precedes x y then x ∷ y ∷ ys else y ∷ rest

-- `sort_by`
pub sorted : List (Bytes × ℕ) → List (Bytes × ℕ)
sorted [] = []
sorted (x ∷ xs) = place x (sorted xs)

-- `map(|(id, _)| *id)`
abbrev pub ids : List (Bytes × ℕ) → List Bytes
ids [] = []
ids (x ∷ xs) = x.0 ∷ ids xs

pub evicted_ids : ClockEntries → ℕ → List Bytes
evicted_ids clock to_evict = ids (take to_evict (sorted (entries_of clock)))

pub remove_all : List Bytes → ClockEntries → ClockEntries
remove_all [] clock = clock
remove_all (id ∷ evicted) clock = remove_all evicted (remove id clock)

pub prune_to_cap : ClockEntries → ℕ → PruningResult × ClockEntries
prune_to_cap clock cap =
    let evicted = evicted_ids clock (length clock - cap) in
    if leb (length clock) cap
    then (clean, clock)
    else (forced_pruning (length evicted), remove_all evicted clock)

pub prune_all : ClockEntries → ℕ → ℕ → ℕ → PruningResult × ClockEntries
prune_all clock expiry_days cap reference_time_unix =
    let expired = prune_expired clock expiry_days reference_time_unix in
    let forced = prune_to_cap expired.1 cap in
    (elim forced.0 [ forced_pruning evicted ↦ forced_pruning evicted | _ ↦ expired.0 ], forced.1)
