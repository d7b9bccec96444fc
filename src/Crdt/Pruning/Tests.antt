-- ===== src/Crdt/Pruning/Tests.antt =====
-- A clock that is pruned.
use arxia.Prelude.{ℕ, ◌≡◌, refl, [], ◌∷◌, length, ◌⊎◌}
use arxia.Prelude.Ord.{cmp_str, str_ord}
use arxia.Prelude.Map.{lookup, remove, IsSorted}
use arxia.Crdt.Pruning.{
  VectorClockEntry, ClockEntries, prune_all, prune_expired, prune_to_cap, retain_live, evicted_ids,
  remove_all, sorted, place, entries_of,
}
use arxia.Crdt.Pruning.Expiry.{if_live, live_count, report, prune_all_lem}
use arxia.Crdt.Pruning.Eviction.{IsNotAbove}
use arxia.Crdt.Pruning.{forced_pruning}
use arxia.Prelude.{none, ltb, ◌<◌, if◌then◌else◌}

abbrev entry : ℕ → ℕ → VectorClockEntry
entry counter last_seen_unix = record { counter = counter; last_seen_unix = last_seen_unix }

-- The first is expired, and the third has the lowest counter of the others.
abbrev clock : ClockEntries
clock = ((1 ∷ []), entry 9 0) ∷ ((2 ∷ []), entry 7 700_000) ∷ ((3 ∷ []), entry 4 700_000) ∷ []

clock-IsSorted : IsSorted clock
unfolding cmp_str
clock-IsSorted = ((refl, (refl, tt)), ((refl, tt), (tt, tt)))

kept : prune_all clock 7 1 700_001 ≡ (forced_pruning 1, ((2 ∷ []), entry 7 700_000) ∷ [])
unfolding prune_all prune_expired prune_to_cap retain_live evicted_ids remove_all sorted place
    entries_of cmp_str remove
kept = refl

prune_all_lem_example :
    (length (prune_all clock 7 1 700_001).1
      ≡ (if ltb 1 (live_count 7 700_001 clock) then 1 else live_count 7 700_001 clock))
    × ((prune_all clock 7 1 700_001).0 ≡ report 7 700_001 1 clock)
    × ((lookup (3 ∷ []) (prune_all clock 7 1 700_001).1 ≡ if_live 7 700_001 (lookup (3 ∷ []) clock))
        ⊎ ((lookup (3 ∷ []) (prune_all clock 7 1 700_001).1 ≡ none)
            × (1 < live_count 7 700_001 clock)
            × IsNotAbove (lookup (3 ∷ []) clock) (lookup (2 ∷ []) (prune_all clock 7 1 700_001).1)))
prune_all_lem_example = prune_all_lem 7 700_001 clock 1 (3 ∷ []) (2 ∷ []) clock-IsSorted
