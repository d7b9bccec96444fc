-- ===== src/Lattice/Clock/Capped.antt =====
-- The cap on the entries of a block's vector clock.
use arxia.Prelude.{
  ℕ, ◌+◌, ◌≤◌, ◌≡◌, ◌<◌, inl, inr, true, false, [], ◌∷◌, length, arith, refl, max, Bool-cases,
}
use arxia.Prelude.Ord.{Str, str_ord, eqb_iff}
use arxia.Prelude.Words.{saturating_add, u64_max}
use arxia.Prelude.Map.{lookup, insert, contains_key, IsSorted}
use arxia.Prelude.Map.Laws.{
  lookup-insert, lookup-insert_self, insert-IsSorted, After-trans, lookup-After,
}
use arxia.Core.{max_vector_clock_entries}
use arxia.Clock.{count_of, happened_before}
use arxia.Clock.Causality.{AtMost, happened_before_iff}
use arxia.Crdt.Join.{join, raise}
use arxia.Prelude.Map.Merge.{merge_by}
use arxia.Lattice.Clock.{VectorClock, is_refused, tick, merge_entry, merge}

-- The invariant: in order of the keys, and at most 256 entries.
abbrev pub IsValid : VectorClock → Type 0
IsValid v = IsSorted v × (length v ≤ max_vector_clock_entries)

length-insert : (k : Str) (n : ℕ) (v : VectorClock) → length (insert k n v) ≤ 1 + length v
unfolding insert
length-insert k n [] = ground arith
length-insert k n ((j, i) ∷ v) = ground (arith, length-insert k n v)

-- Replacing the entry of a key adds none.
length-insert_present :
    (k : Str) (n : ℕ) (v : VectorClock)
    → contains_key k v ≡ true
    → IsSorted v
    → length (insert k n v) ≡ length v
unfolding insert lookup
length-insert_present k n [] e s = cc
length-insert_present k n ((j, i) ∷ v) e s =
    ground (arith, length-insert_present k n v, lookup-After k v, After-trans k j v)

-- One guarded update keeps the invariant.
update-IsValid :
    (k : Str) (n : ℕ) (v : VectorClock)
    → IsValid v
    → is_refused k v ≡ false
    → IsValid (insert k n v)
update-IsValid k n v p e = (
  insert-IsSorted k n v p.0,
  ground (arith, p.1, length-insert k n v, length-insert_present k n v, p.0),
)

merge_entry-IsValid : (k : Str) (n : ℕ) (v : VectorClock) → IsValid v → IsValid (merge_entry k n v)
unfolding merge_entry
merge_entry-IsValid k n v p = elim (Bool-cases (is_refused k v)) [
  | inl refused ↦ rw (merge_entry, refused) p
  | inr free ↦ rw (merge_entry, free) (update-IsValid k (max (count_of k v) n) v p free)
]

merge_entry_grows : (k : Str) (n : ℕ) (v : VectorClock) → AtMost v (merge_entry k n v)
unfolding merge_entry
merge_entry_grows k n v j = ground (arith, lookup-insert j k (max (count_of k v) n) v, eqb_iff j k)

merge-IsValid : (v w : VectorClock) → IsValid v → IsValid (merge v w) × AtMost v (merge v w)
unfolding merge
merge-IsValid v [] p = (p, λ j. omega arith)
merge-IsValid v ((k, n) ∷ w) p =
    let r = merge-IsValid (merge_entry k n v) w (merge_entry-IsValid k n v p) in
    (r.0, λ j. ground (arith, r.1 j, merge_entry_grows k n v j))

tick-IsValid :
    (k : Str) (v : VectorClock)
    → IsValid v
    → count_of k v ≤ u64_max
    → IsValid (tick k v) × AtMost v (tick k v)
unfolding tick
tick-IsValid k v p fits = elim (Bool-cases (is_refused k v)) [
  | inl refused ↦ rw (tick, refused) (p, λ j. omega arith)
  | inr free ↦ (
    rw (tick, free) (update-IsValid k (saturating_add (count_of k v) 1) v p free),
    λ j. ground (arith, lookup-insert j k (saturating_add (count_of k v) 1) v, eqb_iff j k),
  )
]

-- Ticking and merging keep a clock in order of its keys and within 256 entries, and lower no
-- count, where it was so before and the count of the ticking node is a `u64`.
tick-merge-IsValid :
    (k : Str) (v w : VectorClock)
    → IsValid v
    → count_of k v ≤ u64_max
    → (IsValid (tick k v) × AtMost v (tick k v)) × (IsValid (merge v w) × AtMost v (merge v w))
tick-merge-IsValid k v w p fits = (tick-IsValid k v p fits, merge-IsValid v w p)

-- A tick of a clock in order of its keys that the cap lets through puts the old clock before the
-- new one, where the count is below 2^64 - 1.
happened_before-tick :
    (k : Str) (v : VectorClock)
    → IsSorted v
    → is_refused k v ≡ false
    → count_of k v < u64_max
    → happened_before v (tick k v) ≡ true
unfolding tick
happened_before-tick k v s free fits =
    let e = lookup-insert_self k (saturating_add (count_of k v) 1) v in
    rw free (
      (happened_before_iff v (insert k (saturating_add (count_of k v) 1) v) s
          (insert-IsSorted k (saturating_add (count_of k v) 1) v s)).1
        (
          (λ j. ground (arith, lookup-insert j k (saturating_add (count_of k v) 1) v, eqb_iff j k)),
          (k, ground (arith, e, fits)),
        ))

merge_entry-raise :
    (k : Str) (n : ℕ) (v : VectorClock)
    → length v < max_vector_clock_entries
    → merge_entry k n v ≡ insert k (raise (lookup k v) n) v
unfolding merge_entry
merge_entry-raise k n v le = ground arith

-- Where the first clock is in order of its keys and the entries of both together stay within the
-- cap, merging is the join.
merge-join :
    (v w : VectorClock)
    → IsSorted v
    → length v + length w ≤ max_vector_clock_entries
    → merge v w ≡ join v w
unfolding merge merge_by
merge-join v [] s le = refl
merge-join v ((k, n) ∷ w) s le = cc (
  merge_entry-raise k n v (ground arith),
  merge-join (insert k (raise (lookup k v) n) v) w (insert-IsSorted k (raise (lookup k v) n) v s)
      (omega (arith, length-insert k (raise (lookup k v) n) v)),
)
