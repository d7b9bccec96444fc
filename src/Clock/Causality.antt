-- ===== src/Clock/Causality.antt =====
-- The comparison of vector clocks decides the strict pointwise order.
use arxia.Prelude.{
  ℕ, ◌≤◌, ◌<◌, ◌≡◌, ◌≢◌, if◌then◌else◌, ◌↔◌, ◌⊎◌, inl, inr, Bool, true, false, not, ◌&&◌, none,
  some, [], ◌∷◌, ltb, refl, arith, Bool-cases, Option-cases,
}
use arxia.Prelude.Ord.{Str, str_ord, str-IsTotal, eqb_iff, eqb}
use arxia.Prelude.Map.{Map, lookup, IsSorted, After, contains_key}
use arxia.Prelude.Map.Laws.{lookup-After}
use arxia.Clock.{count_of, first_pass, second_pass, happened_before}

-- Every count of the first clock is at most that of the second.
abbrev pub AtMost : Map Str ℕ → Map Str ℕ → Type 0
AtMost v w = (k : Str) → count_of k v ≤ count_of k w

-- Some count of the first clock is below that of the second.
abbrev pub SomeBelow : Map Str ℕ → Map Str ℕ → Type 0
SomeBelow v w = (k : Str) × (count_of k v < count_of k w)

head_count : (k : Str) (n : ℕ) (v : Map Str ℕ) → count_of k ((k, n) ∷ v) ≡ n
unfolding lookup
head_count k n v = ground (arith, str-IsTotal.cmp_flip k k)

head_key : (k : Str) (n : ℕ) (v : Map Str ℕ) → contains_key k ((k, n) ∷ v) ≡ true
unfolding lookup
head_key k n v = ground (arith, str-IsTotal.cmp_flip k k)

-- The count of a key behind the head, whose own key is in no entry behind it.
tail_count :
    (j k : Str) (n : ℕ) (v : Map Str ℕ)
    → After k v
    → ((j ≡ k) × (count_of j ((k, n) ∷ v) ≡ n) × (lookup j v ≡ none))
      ⊎ ((j ≢ k) × (lookup j ((k, n) ∷ v) ≡ lookup j v))
unfolding lookup
tail_count j k n v a = elim (Bool-cases (eqb j k)) [
  | inl same ↦
      inl (
        (eqb_iff j k).0 same,
        ground arith,
        ground (arith, lookup-After k v a, (eqb_iff j k).0 same),
      )
  | inr other ↦ inr ((λ p. cc ((eqb_iff j k).1 p, other)), ground arith)
]

first_none :
    (v w : Map Str ℕ) (less : Bool)
    → IsSorted v
    → first_pass v w less ≡ none
    → (k : Str) × (count_of k w < count_of k v)
unfolding first_pass
first_none [] w less s e = cc
first_none ((k, n) ∷ v) w less s e = elim (Bool-cases (ltb (count_of k w) n)) [
  | inl more ↦ (k, ground (arith, head_count k n v))
  | inr nm ↦
      let r = first_none v w (if ltb n (count_of k w) then true else less) s.1 (rw nm at e) in
      (r.0, ground (arith, r.1, tail_count r.0 k n v s.0))
]

first_le :
    (v w : Map Str ℕ) (less r : Bool) → IsSorted v → first_pass v w less ≡ some r → AtMost v w
unfolding first_pass lookup
first_le [] w less r s e j = ground arith
first_le ((k, n) ∷ v) w less r s e j = elim (Bool-cases (ltb (count_of k w) n)) [
  | inl more ↦ cc
  | inr nm ↦
      let below = first_le v w (if ltb n (count_of k w) then true else less) r s.1 (rw nm at e) in
      ground (arith, below j, tail_count j k n v s.0)
]

first_true :
    (v w : Map Str ℕ) (less : Bool)
    → IsSorted v
    → first_pass v w less ≡ some true
    → (less ≡ true) ⊎ ((k : Str) × (contains_key k v ≡ true) × (count_of k v < count_of k w))
unfolding first_pass
first_true [] w less s e = inl cc
first_true ((k, n) ∷ v) w less s e = elim (Bool-cases (ltb (count_of k w) n)) [
  | inl more ↦ cc
  | inr nm ↦ elim (Bool-cases (ltb n (count_of k w))) [
    | inl below ↦ inr (k, head_key k n v, ground (arith, head_count k n v))
    | inr same ↦ elim (first_true v w less s.1 (rw (nm, same) at e)) [
      | inl t ↦ inl t
      | inr r ↦ inr (
        r.0,
        ground (arith, tail_count r.0 k n v s.0, r.1, r.2),
        ground (arith, tail_count r.0 k n v s.0, r.1, r.2),
      )
    ]
  ]
]

first_false :
    (v w : Map Str ℕ) (less : Bool)
    → IsSorted v
    → first_pass v w less ≡ some false
    → (less ≡ false) × ((k : Str) → contains_key k v ≡ true → count_of k w ≤ count_of k v)
unfolding first_pass lookup
first_false [] w less s e = (cc, λ j h. cc)
first_false ((k, n) ∷ v) w less s e = elim (Bool-cases (ltb (count_of k w) n)) [
  | inl more ↦ cc
  | inr nm ↦ elim (Bool-cases (ltb n (count_of k w))) [
    | inl below ↦ cc ((first_false v w true s.1 (rw (nm, below) at e)).0)
    | inr same ↦
        let r = first_false v w less s.1 (rw (nm, same) at e) in
        (r.0, λ j h. ground (arith, r.1 j, tail_count j k n v s.0))
  ]
]

second_true :
    (v w : Map Str ℕ) (less : Bool)
    → IsSorted w
    → second_pass v w less ≡ true
    → (less ≡ true) ⊎ ((k : Str) × (contains_key k v ≡ false) × (0 < count_of k w))
unfolding second_pass
second_true v [] less s e = inl e
second_true v ((k, n) ∷ w) less s e = elim (Bool-cases (not (contains_key k v) && ltb 0 n)) [
  | inl new ↦ inr (k, ground arith, ground (arith, head_count k n w))
  | inr old ↦ elim (second_true v w less s.1 (rw old at e)) [
    | inl t ↦ inl t
    | inr r ↦ inr (r.0, r.1, ground (arith, tail_count r.0 k n w s.0, r.2))
  ]
]

second_false :
    (v w : Map Str ℕ) (less : Bool)
    → IsSorted w
    → second_pass v w less ≡ false
    → (less ≡ false) × ((k : Str) → contains_key k v ≡ false → count_of k w ≡ 0)
unfolding second_pass lookup
second_false v [] less s e = (e, λ j h. refl)
second_false v ((k, n) ∷ w) less s e = elim (Bool-cases (not (contains_key k v) && ltb 0 n)) [
  | inl new ↦ cc ((second_false v w true s.1 (rw new at e)).0)
  | inr old ↦
      let r = second_false v w less s.1 (rw old at e) in
      (r.0, λ j h. ground (arith, r.1 j, tail_count j k n w s.0))
]

sound_le : (v w : Map Str ℕ) → IsSorted v → happened_before v w ≡ true → AtMost v w
unfolding happened_before
sound_le v w s e = elim (Option-cases (first_pass v w false)) [
  | inl early ↦ cc
  | inr r ↦ first_le v w false r.0 s r.1
]

sound_below :
    (v w : Map Str ℕ) → IsSorted v → IsSorted w → happened_before v w ≡ true → SomeBelow v w
unfolding happened_before
sound_below v w s t e = elim (Option-cases (first_pass v w false)) [
  | inl early ↦ cc
  | inr (true, e1) ↦ elim (first_true v w false s e1) [ inl z ↦ cc | inr r ↦ (r.0, r.2) ]
  | inr (false, e1) ↦ elim (second_true v w false t (rw (happened_before, e1) at e)) [
    | inl z ↦ cc
    | inr r ↦ (r.0, ground (arith, r.1, r.2))
  ]
]

complete :
    (v w : Map Str ℕ)
    → IsSorted v
    → IsSorted w
    → AtMost v w
    → SomeBelow v w
    → happened_before v w ≡ true
unfolding happened_before
complete v w s t le below = elim (Option-cases (first_pass v w false)) [
  | inl early ↦
      absurd (omega (arith, (first_none v w false s early).1, le (first_none v w false s early).0))
  | inr (less, e1) ↦ elim (Bool-cases (second_pass v w less)) [
    | inl yes' ↦ rw (happened_before, e1) yes'
    | inr none' ↦
        let q = second_false v w less t none' in
        let p = first_false v w false s (rw q.0 at e1) in
        ground (arith, p.1 below.0, q.1 below.0, below.1)
  ]
]

-- On maps in order of their keys, `happened_before` is true exactly if no count of the first clock
-- exceeds that of the second, absent counts being 0, and some count is below.
pub happened_before_iff :
    (v w : Map Str ℕ)
    → IsSorted v
    → IsSorted w
    → (happened_before v w ≡ true) ↔ (AtMost v w × SomeBelow v w)
happened_before_iff v w s t =
    ((λ e. (sound_le v w s e, sound_below v w s t e)), (λ p. complete v w s t p.0 p.1))
