-- ===== src/Crdt/Pruning/Eviction.antt =====
-- What `prune_to_cap` evicts.
use arxia.Prelude.{
  Option, Bool-cases, inl, inr, ℕ, suc, ◌+◌, ◌-◌, ◌≤◌, ◌≡◌, refl, sym, ap, ◌∙◌, true, false, none,
  some, List, [], ◌∷◌, length, All, arith, leb, if◌then◌else◌, ◌⊎◌,
}
use arxia.Prelude.Ord.{eqb_iff, str_ord}
use arxia.Prelude.Elem.{elem, IsNodup}
use arxia.Prelude.Map.{lookup, remove, contains_key, IsSorted}
use arxia.Prelude.Map.Laws.{lookup-After, lookup-remove_self, lookup-remove_ne, remove-IsSorted}
use arxia.Prelude.Map.Size.{length-remove}
use arxia.Prelude.Words.{Bytes}
use arxia.Crdt.Pruning.{
  clean, forced_pruning, VectorClockEntry, ClockEntries, entries_of, sorted, ids, evicted_ids,
  remove_all, prune_to_cap,
}
use arxia.Crdt.Pruning.Sorting.{
  All-sorted, sorted-IsAscending, elem-ids-sorted, ids-sorted-IsNodup, length-sorted,
  length-ids-take, elem-ids-take, ids-take-IsNodup, lowest_first,
}

-- The counter under a key, 0 where it is missing.
abbrev counter_at : ClockEntries → Bytes → ℕ
counter_at clock k = elim (lookup k clock) [ none ↦ 0 | some entry ↦ entry.counter ]

length-entries_of : (clock : ClockEntries) → length (entries_of clock) ≡ length clock
unfolding entries_of
length-entries_of [] = refl
length-entries_of (x ∷ clock) = ap suc (length-entries_of clock)

elem-entries_of :
    (k : Bytes) (clock : ClockEntries) → elem k (ids (entries_of clock)) ≡ contains_key k clock
unfolding entries_of lookup
elem-entries_of k [] = refl
elem-entries_of k ((j, entry) ∷ clock) = ground (arith, elem-entries_of k clock)

entries_of-IsNodup : (clock : ClockEntries) → IsSorted clock → IsNodup (ids (entries_of clock))
unfolding entries_of
entries_of-IsNodup [] s = tt
entries_of-IsNodup ((j, entry) ∷ clock) s = (
  elem-entries_of j clock ∙ rw (contains_key, lookup-After j clock s.0),
  entries_of-IsNodup clock s.1,
)

entries_agree :
    (counter_of : Bytes → ℕ) (clock : ClockEntries)
    → IsSorted clock
    → ((k : Bytes) (entry : VectorClockEntry)
        → lookup k clock ≡ some entry
        → counter_of k ≡ entry.counter)
    → All (λ x. counter_of x.0 ≡ x.1) (entries_of clock)
unfolding entries_of lookup
entries_agree counter_of [] s h = tt
entries_agree counter_of ((j, entry) ∷ clock) s h = (
  h j entry (ground (arith, eqb_iff j j)),
  entries_agree counter_of clock s.1 (λ k e l.
      h k e (ground (arith, l, eqb_iff k j, lookup-After j clock s.0, ap (λ i. lookup i clock)))),
)

lookup-remove_all :
    (k : Bytes) (evicted : List Bytes) (clock : ClockEntries)
    → IsSorted clock
    → lookup k (remove_all evicted clock) ≡ (if elem k evicted then none else lookup k clock)
unfolding remove_all
lookup-remove_all k [] clock s = refl
lookup-remove_all k (j ∷ evicted) clock s = ground (
  arith,
  lookup-remove_all k evicted (remove j clock) (remove-IsSorted j clock s),
  eqb_iff k j,
  lookup-remove_ne k j clock,
  lookup-remove_self j clock s,
  ap (λ i. lookup i (remove j clock)),
)

length-remove_all :
    (evicted : List Bytes) (clock : ClockEntries)
    → IsNodup evicted
    → ((k : Bytes) → elem k evicted ≡ true → contains_key k clock ≡ true)
    → length (remove_all evicted clock) + length evicted ≡ length clock
unfolding remove_all
length-remove_all [] clock n h = omega arith
length-remove_all (j ∷ evicted) clock n h =
    let rest =
      length-remove_all evicted (remove j clock) n.1 (λ k e.
        ground (arith, lookup-remove_ne k j clock, h k, n.0, e, ap (λ i. elem i evicted))) in
    ground (arith, rest, length-remove j clock, h j, eqb_iff j j)

evicted_ids-IsNodup :
    (clock : ClockEntries) (n : ℕ) → IsSorted clock → IsNodup (evicted_ids clock n)
unfolding evicted_ids
evicted_ids-IsNodup clock n s =
    ids-take-IsNodup n (sorted (entries_of clock))
      (ids-sorted-IsNodup (entries_of clock) (entries_of-IsNodup clock s))

evicted_ids-known :
    (k : Bytes) (clock : ClockEntries) (n : ℕ)
    → elem k (evicted_ids clock n) ≡ true
    → contains_key k clock ≡ true
unfolding evicted_ids
evicted_ids-known k clock n e =
    sym (elem-entries_of k clock)
    ∙ sym (elem-ids-sorted k (entries_of clock))
    ∙ elem-ids-take k n (sorted (entries_of clock)) e

length-evicted_ids :
    (clock : ClockEntries) (n : ℕ) → n ≤ length clock → length (evicted_ids clock n) ≡ n
unfolding evicted_ids
length-evicted_ids clock n le =
    length-ids-take n (sorted (entries_of clock))
      (omega (arith, length-sorted (entries_of clock), length-entries_of clock))

-- The number of entries after the cap was enforced, and what is reported.
pub length-prune_to_cap :
    (clock : ClockEntries) (cap : ℕ)
    → IsSorted clock
    → (length (prune_to_cap clock cap).1 ≡ (if leb (length clock) cap then length clock else cap))
      × ((prune_to_cap clock cap).0
          ≡ (if leb (length clock) cap then clean else forced_pruning (length clock - cap)))
unfolding prune_to_cap
length-prune_to_cap clock cap s =
    let n = length clock - cap in
    ground (
      arith,
      length-evicted_ids clock n (omega arith),
      length-remove_all (evicted_ids clock n) clock (evicted_ids-IsNodup clock n s)
          (λ k e. evicted_ids-known k clock n e),
    )

evicted_lowest :
    (clock : ClockEntries) (n : ℕ) (j k : Bytes) (e f : VectorClockEntry)
    → IsSorted clock
    → lookup j clock ≡ some e
    → lookup k clock ≡ some f
    → elem j (evicted_ids clock n) ≡ true
    → elem k (evicted_ids clock n) ≡ false
    → e.counter ≤ f.counter
unfolding evicted_ids
evicted_lowest clock n j k e f s lj lk ej ek =
    let agree = entries_agree (counter_at clock) clock s (λ i d l. rw (counter_at, l)) in
    let known = elem-ids-sorted k (entries_of clock) ∙ elem-entries_of k clock in
    let le =
      lowest_first (counter_at clock) n j k (sorted (entries_of clock))
        (sorted-IsAscending (entries_of clock))
        (All-sorted (λ x. counter_at clock x.0 ≡ x.1) (entries_of clock) agree) ej ek
        (ground (arith, known, lk)) in
    ground (arith, le, lj, lk)

-- The counter of the first entry is not above that of the second, where there are both.
abbrev pub IsNotAbove : Option VectorClockEntry → Option VectorClockEntry → Type 0
IsNotAbove none f = Unit {0}
IsNotAbove (some e) none = Unit {0}
IsNotAbove (some e) (some f) = e.counter ≤ f.counter

IsNotAbove-intro :
    (o p : Option VectorClockEntry)
    → ((e f : VectorClockEntry) → o ≡ some e → p ≡ some f → e.counter ≤ f.counter)
    → IsNotAbove o p
IsNotAbove-intro none p h = tt
IsNotAbove-intro (some e) none h = tt
IsNotAbove-intro (some e) (some f) h = h e f refl refl

-- An entry is kept as it was, or evicted where there are too many and every entry that is kept has a
-- counter at least as high.
pub prune_to_cap_lem :
    (clock : ClockEntries) (cap : ℕ) (j k : Bytes)
    → IsSorted clock
    → (lookup j (prune_to_cap clock cap).1 ≡ lookup j clock)
      ⊎ ((lookup j (prune_to_cap clock cap).1 ≡ none)
          × (leb (length clock) cap ≡ false)
          × IsNotAbove (lookup j clock) (lookup k (prune_to_cap clock cap).1))
unfolding prune_to_cap
prune_to_cap_lem clock cap j k s =
    let evicted = evicted_ids clock (length clock - cap) in
    let at_j = lookup-remove_all j evicted clock s in
    let at_k = lookup-remove_all k evicted clock s in
    elim (Bool-cases (leb (length clock) cap)) [
      | inl few ↦ inl (rw few refl)
      | inr many ↦ elim (Bool-cases (elem j evicted)) [
        | inr stays ↦ inl (ground (arith, many, at_j, stays))
        | inl goes ↦ inr (
          ground (arith, many, at_j, goes),
          many,
          IsNotAbove-intro _ _ (λ e f le lf. ground (
            arith,
            many,
            at_k,
            lf,
            evicted_lowest clock (length clock - cap) j k e f s le,
            goes,
          )),
        )
      ]
    ]
