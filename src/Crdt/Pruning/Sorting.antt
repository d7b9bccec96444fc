-- ===== src/Crdt/Pruning/Sorting.antt =====
-- The sort by counters, and the lists of identifiers that it yields.
use arxia.Prelude.{
  ℕ, zero, suc, ◌≤◌, ◌≡◌, refl, ap, ◌∙◌, true, false, ◌||◌, List, [], ◌∷◌, length, take, All, arith,
}
use arxia.Prelude.Ord.{eqb, eqb_iff, str_ord}
use arxia.Prelude.Elem.{elem, IsNodup}
use arxia.Prelude.Words.{Bytes}
use arxia.Crdt.Pruning.{place, sorted, ids}

-- No later entry has a lower counter.
abbrev IsAscending : List (Bytes × ℕ) → Type 0
IsAscending [] = Unit {0}
IsAscending (x ∷ xs) = All (λ y. x.1 ≤ y.1) xs × IsAscending xs

All-place :
    (P : Bytes × ℕ → Type 0) (x : Bytes × ℕ) (xs : List (Bytes × ℕ))
    → P x
    → All P xs
    → All P (place x xs)
unfolding place
All-place P x [] p h = (p, tt)
All-place P x (y ∷ xs) p h = ground (arith, All-place P x xs p h.1)

pub All-sorted : (P : Bytes × ℕ → Type 0) (xs : List (Bytes × ℕ)) → All P xs → All P (sorted xs)
unfolding sorted
All-sorted P [] h = tt
All-sorted P (x ∷ xs) h = All-place P x (sorted xs) h.0 (All-sorted P xs h.1)

All-le_trans :
    (a b : ℕ) (xs : List (Bytes × ℕ)) → a ≤ b → All (λ y. b ≤ y.1) xs → All (λ y. a ≤ y.1) xs
All-le_trans a b [] le h = tt
All-le_trans a b (x ∷ xs) le h = (omega arith, All-le_trans a b xs le h.1)

place-IsAscending :
    (x : Bytes × ℕ) (xs : List (Bytes × ℕ)) → IsAscending xs → IsAscending (place x xs)
unfolding place
place-IsAscending x [] h = (tt, tt)
place-IsAscending x (y ∷ xs) h =
    ground
      (arith, place-IsAscending x xs h.1, All-le_trans x.1 y.1 xs, All-place (λ z. y.1 ≤ z.1) x xs)

pub sorted-IsAscending : (xs : List (Bytes × ℕ)) → IsAscending (sorted xs)
unfolding sorted
sorted-IsAscending [] = tt
sorted-IsAscending (x ∷ xs) = place-IsAscending x (sorted xs) (sorted-IsAscending xs)

elem-ids-place :
    (k : Bytes) (x : Bytes × ℕ) (xs : List (Bytes × ℕ))
    → elem k (ids (place x xs)) ≡ (eqb k x.0 || elem k (ids xs))
unfolding place
elem-ids-place k x [] = refl
elem-ids-place k x (y ∷ xs) = ground (arith, elem-ids-place k x xs)

pub elem-ids-sorted :
    (k : Bytes) (xs : List (Bytes × ℕ)) → elem k (ids (sorted xs)) ≡ elem k (ids xs)
unfolding sorted
elem-ids-sorted k [] = refl
elem-ids-sorted k (x ∷ xs) =
    elem-ids-place k x (sorted xs) ∙ ap (λ b. eqb k x.0 || b) (elem-ids-sorted k xs)

ids-place-IsNodup :
    (x : Bytes × ℕ) (xs : List (Bytes × ℕ))
    → elem x.0 (ids xs) ≡ false
    → IsNodup (ids xs)
    → IsNodup (ids (place x xs))
unfolding place
ids-place-IsNodup x [] e h = (refl, tt)
ids-place-IsNodup x (y ∷ xs) e h =
    ground
      (arith, ids-place-IsNodup x xs, elem-ids-place y.0 x xs, eqb_iff x.0 y.0, eqb_iff y.0 x.0)

pub ids-sorted-IsNodup : (xs : List (Bytes × ℕ)) → IsNodup (ids xs) → IsNodup (ids (sorted xs))
unfolding sorted
ids-sorted-IsNodup [] h = tt
ids-sorted-IsNodup (x ∷ xs) h =
    ids-place-IsNodup x (sorted xs) (elem-ids-sorted x.0 xs ∙ h.0) (ids-sorted-IsNodup xs h.1)

length-place : (x : Bytes × ℕ) (xs : List (Bytes × ℕ)) → length (place x xs) ≡ suc (length xs)
unfolding place
length-place x [] = refl
length-place x (y ∷ xs) = ground (arith, length-place x xs)

pub length-sorted : (xs : List (Bytes × ℕ)) → length (sorted xs) ≡ length xs
unfolding sorted
length-sorted [] = refl
length-sorted (x ∷ xs) = length-place x (sorted xs) ∙ ap suc (length-sorted xs)

pub length-ids-take : (n : ℕ) (xs : List (Bytes × ℕ)) → n ≤ length xs → length (ids (take n xs)) ≡ n
length-ids-take zero xs le = refl
length-ids-take (suc n) [] le = omega arith
length-ids-take (suc n) (x ∷ xs) le = ap suc (length-ids-take n xs (omega arith))

pub elem-ids-take :
    (k : Bytes) (n : ℕ) (xs : List (Bytes × ℕ))
    → elem k (ids (take n xs)) ≡ true
    → elem k (ids xs) ≡ true
elem-ids-take k zero xs e = cc
elem-ids-take k (suc n) [] e = cc
elem-ids-take k (suc n) (x ∷ xs) e = ground (arith, elem-ids-take k n xs)

pub ids-take-IsNodup :
    (n : ℕ) (xs : List (Bytes × ℕ)) → IsNodup (ids xs) → IsNodup (ids (take n xs))
ids-take-IsNodup zero xs h = tt
ids-take-IsNodup (suc n) [] h = tt
ids-take-IsNodup (suc n) (x ∷ xs) h =
    (ground (arith, elem-ids-take x.0 n xs), ids-take-IsNodup n xs h.1)

module _ (counter_of : Bytes → ℕ) where
  lowest-head :
      (b : ℕ) (k : Bytes) (xs : List (Bytes × ℕ))
      → All (λ x. b ≤ x.1) xs
      → All (λ x. counter_of x.0 ≡ x.1) xs
      → elem k (ids xs) ≡ true
      → b ≤ counter_of k
  lowest-head b k [] h a e = cc
  lowest-head b k (x ∷ xs) h a e =
      ground (arith, lowest-head b k xs h.1 a.1, eqb_iff k x.0, ap counter_of)

  -- What stands among the first `n` has a counter no higher than what does not.
  pub lowest_first :
      (n : ℕ) (j k : Bytes) (xs : List (Bytes × ℕ))
      → IsAscending xs
      → All (λ x. counter_of x.0 ≡ x.1) xs
      → elem j (ids (take n xs)) ≡ true
      → elem k (ids (take n xs)) ≡ false
      → elem k (ids xs) ≡ true
      → counter_of j ≤ counter_of k
  lowest_first zero j k xs h a ej ek e = cc
  lowest_first (suc n) j k [] h a ej ek e = cc
  lowest_first (suc n) j k (x ∷ xs) h a ej ek e = ground (
    arith,
    lowest_first n j k xs h.1 a.1,
    lowest-head x.1 k xs h.0 a.1,
    eqb_iff j x.0,
    ap counter_of,
  )
