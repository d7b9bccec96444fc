-- ===== src/Consensus/Delegation/Edges.antt =====
-- What `connect` and `disconnect` do to the edges and to the order of the maps.
use arxia.Prelude.{◌≡◌, ◌||◌, ◌&&◌, not, [], ◌∷◌, arith, Option-cases, inl, inr, if◌then◌else◌}
use arxia.Prelude.Ord.{Str, eqb, eqb_iff, str_ord, pair_ord}
use arxia.Prelude.Map.{Map, Set, lookup, insert, remove, IsSorted}
use arxia.Prelude.Map.Laws.{
  lookup-insert, insert-IsSorted, remove-IsSorted, lookup-remove_ne, lookup-remove_self, remove-nil,
}
use arxia.Consensus.Delegation.{neighbors, connect, disconnect, put_back}
use arxia.Consensus.Delegation.Search.{has_edge}

module _ (from to : Str) (m : Map Str (Set Str)) where
  pub has_edge-connect :
      (x y : Str) → has_edge (connect from to m) x y ≡ (has_edge m x y || (eqb x from && eqb y to))
  unfolding connect
  has_edge-connect x y = ground (
    arith,
    lookup-insert x from (insert to tt (neighbors m from)) m,
    lookup-insert y to tt (neighbors m from),
    eqb_iff x from,
  )

  pub connect-IsSorted : IsSorted m → IsSorted (connect from to m)
  unfolding connect
  connect-IsSorted s = insert-IsSorted from (insert to tt (neighbors m from)) m s

  pub sets_sorted-connect :
      ((x : Str) → IsSorted (neighbors m x))
      → (x : Str) → IsSorted (neighbors (connect from to m) x)
  unfolding connect
  sets_sorted-connect s x = ground (
    arith,
    s x,
    insert-IsSorted to tt (neighbors m from) (s from),
    lookup-insert x from (insert to tt (neighbors m from)) m,
  )

  neighbors-put_back :
      (s : Set Str) (x : Str)
      → IsSorted m
      → neighbors (put_back from s m) x ≡ (if eqb x from then s else neighbors m x)
  neighbors-put_back [] x h =
      ground (arith, eqb_iff x from, lookup-remove_self from m h, lookup-remove_ne x from m)
  neighbors-put_back (z ∷ s) x h = ground (arith, lookup-insert x from (z ∷ s) m)

  neighbors-disconnect :
      (x : Str)
      → IsSorted m
      → neighbors (disconnect from to m) x
        ≡ (if eqb x from then remove to (neighbors m x) else neighbors m x)
  unfolding disconnect
  neighbors-disconnect x h = elim (Option-cases (lookup from m)) [
    | inl no_set ↦ ground (arith, eqb_iff x from, no_set, remove-nil {V = Unit {0}} to)
    | inr (s, e) ↦ ground (arith, eqb_iff x from, e, neighbors-put_back (remove to s) x h)
  ]

  put_back-IsSorted : (s : Set Str) → IsSorted m → IsSorted (put_back from s m)
  put_back-IsSorted [] h = remove-IsSorted from m h
  put_back-IsSorted (z ∷ s) h = insert-IsSorted from (z ∷ s) m h

  pub disconnect-IsSorted : IsSorted m → IsSorted (disconnect from to m)
  unfolding disconnect
  disconnect-IsSorted h = elim (Option-cases (lookup from m)) [
    | inl no_set ↦ ground (arith, no_set)
    | inr (s, e) ↦ ground (arith, e, put_back-IsSorted (remove to s) h)
  ]

  pub sets_sorted-disconnect :
      IsSorted m
      → ((x : Str) → IsSorted (neighbors m x))
      → (x : Str) → IsSorted (neighbors (disconnect from to m) x)
  sets_sorted-disconnect h s x =
      rw (neighbors-disconnect x h) (ground (arith, s x, remove-IsSorted to (neighbors m x)))

  pub has_edge-disconnect :
      (x y : Str)
      → IsSorted m
      → IsSorted (neighbors m x)
      → has_edge (disconnect from to m) x y ≡ (has_edge m x y && not (eqb x from && eqb y to))
  has_edge-disconnect x y h s = rw (neighbors-disconnect x h) (
      ground (
        arith,
        eqb_iff y to,
        lookup-remove_self to (neighbors m x) s,
        lookup-remove_ne y to (neighbors m x),
      ))
