-- ===== src/Crdt/Pruning/Expiry.antt =====
-- What `prune_all` leaves of a clock.
use arxia.Prelude.{
  ℕ, ◌+◌, ◌-◌, ◌≤◌, ◌<◌, ◌≡◌, refl, sym, ap, ◌∙◌, Option, none, some, [], ◌∷◌, length, arith, ltb,
  if◌then◌else◌, ◌⊎◌, inl, inr, Option-cases,
}
use arxia.Prelude.Ord.{eqb_iff, str_ord}
use arxia.Prelude.Map.{lookup, After, IsSorted}
use arxia.Prelude.Map.Laws.{lookup-After}
use arxia.Prelude.Words.{Bytes, saturating_mul}
use arxia.Crdt.Pruning.{
  PruningResult, forced_pruning, expired_removed, clean, VectorClockEntry, ClockEntries,
  retain_live, prune_expired, prune_all,
}
use arxia.Crdt.Pruning.Eviction.{IsNotAbove, length-prune_to_cap, prune_to_cap_lem}

module _ (expiry_days now : ℕ) where
  -- An entry that is not too old.
  abbrev pub if_live : Option VectorClockEntry → Option VectorClockEntry
  if_live none = none
  if_live (some e) =
      if ltb (now - e.last_seen_unix) (saturating_mul expiry_days 86_400) then some e else none

  if_live-some :
      (o : Option VectorClockEntry) (e : VectorClockEntry) → if_live o ≡ some e → o ≡ some e
  if_live-some none e h = h
  if_live-some (some f) e h = ground (arith, h)

  retain_live-After :
      (k : Bytes) (clock : ClockEntries)
      → After k clock
      → After k (retain_live expiry_days now clock)
  unfolding retain_live
  retain_live-After k [] a = tt
  retain_live-After k (x ∷ clock) a = ground (arith, retain_live-After k clock a.1, a.0)

  retain_live-IsSorted :
      (clock : ClockEntries) → IsSorted clock → IsSorted (retain_live expiry_days now clock)
  unfolding retain_live
  retain_live-IsSorted [] s = tt
  retain_live-IsSorted (x ∷ clock) s =
      ground (arith, retain_live-IsSorted clock s.1, retain_live-After x.0 clock s.0)

  lookup-retain_live :
      (k : Bytes) (clock : ClockEntries)
      → IsSorted clock
      → lookup k (retain_live expiry_days now clock) ≡ if_live (lookup k clock)
  unfolding retain_live lookup
  lookup-retain_live k [] s = refl
  lookup-retain_live k ((j, e) ∷ clock) s = ground (
    arith,
    lookup-retain_live k clock s.1,
    eqb_iff k j,
    lookup-After j clock s.0,
    ap (λ i. lookup i clock),
  )

  -- The number of the entries that are not too old.
  unfoldable pub live_count : ClockEntries → ℕ
  live_count [] = 0
  live_count ((id, e) ∷ clock) =
      let rest = live_count clock in
      if ltb (now - e.last_seen_unix) (saturating_mul expiry_days 86_400) then rest + 1 else rest

  length-retain_live :
      (clock : ClockEntries) → length (retain_live expiry_days now clock) ≡ live_count clock
  unfolding retain_live live_count
  length-retain_live [] = refl
  length-retain_live (x ∷ clock) = ground (arith, length-retain_live clock)

  live_count_le : (clock : ClockEntries) → live_count clock ≤ length clock
  unfolding live_count
  live_count_le [] = omega arith
  live_count_le (x ∷ clock) = ground (arith, live_count_le clock)

  -- What is reported for a clock: the entries over the cap, else those that are too old.
  abbrev pub report : ℕ → ClockEntries → PruningResult
  report cap clock =
      if ltb cap (live_count clock)
      then forced_pruning (live_count clock - cap)
      else if ltb (live_count clock) (length clock)
      then expired_removed (length clock - live_count clock)
      else clean

  -- `prune_all` leaves as many entries of a clock as are not too old, or as the cap if that is less, and
  -- reports the number that the cap took, or else that of the old ones. What it leaves under a key is
  -- the entry that was there, if that is not too old; or nothing, and then there were too many, and no
  -- key has an entry left with a lower counter than the one that was there.
  pub prune_all_lem :
      (clock : ClockEntries) (cap : ℕ) (j k : Bytes)
      → IsSorted clock
      → (length (prune_all clock expiry_days cap now).1
          ≡ (if ltb cap (live_count clock) then cap else live_count clock))
        × ((prune_all clock expiry_days cap now).0 ≡ report cap clock)
        × ((lookup j (prune_all clock expiry_days cap now).1 ≡ if_live (lookup j clock))
            ⊎ ((lookup j (prune_all clock expiry_days cap now).1 ≡ none)
                × (cap < live_count clock)
                × IsNotAbove (lookup j clock) (lookup k (prune_all clock expiry_days cap now).1)))
  unfolding prune_all prune_expired
  prune_all_lem clock cap j k s =
      let kept = retain_live expiry_days now clock in
      let sorted = retain_live-IsSorted clock s in
      let size = length-prune_to_cap kept cap sorted in
      let count = length-retain_live clock in
      (
        ground (arith, size, count),
        ground (arith, size, count, live_count_le clock),
        elim (prune_to_cap_lem kept cap j k sorted) [
          | inl same ↦ inl (same ∙ lookup-retain_live j clock s)
          | inr (gone, many, low) ↦ elim (Option-cases (if_live (lookup j clock))) [
            | inl old ↦ inl (gone ∙ sym old)
            | inr (e, live) ↦
                let unchanged : lookup j kept ≡ lookup j clock =
                  lookup-retain_live j clock s
                  ∙ live
                  ∙ sym (if_live-some (lookup j clock) e live) in
                inr (gone, ground (arith, many, count), rw (sym unchanged) low)
          ]
        ],
      )
