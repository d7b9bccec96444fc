-- ===== src/Crdt/Reconciliation/Symmetry.antt =====
-- The two partitions may be exchanged: the winners and the conflicts are read off the sorted groups,
-- which are the same.
use arxia.Prelude.{◌≡◌, refl, sym, ap, ◌∙◌, List, [], ◌∷◌, ◌++◌, arith, All-append}
use arxia.Prelude.Ord.{Str, str_ord, nat_ord, pair_ord}
use arxia.Prelude.Map.{Map, lookup, IsSorted, After}
use arxia.Prelude.Map.Ext.{map_ext}
use arxia.Lattice.Block.{Block}
use arxia.Crdt.Reconciliation.{
  Key, Group, group, dedup, place, sorted, winners, conflicts, settle, reconcile_partitions, hashes,
  ResolvedConflict,
}
use arxia.Crdt.Reconciliation.Groups.{blocks_of, blocks_of-group, group-IsSorted}
use arxia.Crdt.Reconciliation.Bags.{sorted_list, to_group, IsDetermined, sorted_list_swap}

-- Every group, sorted.
abbrev sorted_groups : Map Key Group → Map Key Group
sorted_groups [] = []
sorted_groups ((k, g) ∷ m) = (k, sorted g.0 g.1) ∷ sorted_groups m

abbrev firsts : Map Key Group → Map Key Block
firsts [] = []
firsts ((k, g) ∷ m) = (k, g.0) ∷ firsts m

-- The conflict of a sorted group, which has losers.
abbrev conflict_of : Key → Group → List ResolvedConflict
conflict_of k (w, []) = []
conflict_of k (w, l ∷ ls) =
    record { account = k.0; nonce = k.1; winner_hash = w.hash; loser_hashes = hashes (l ∷ ls) } ∷ []

winners_eq : (m : Map Key Group) → winners m ≡ firsts (sorted_groups m)
unfolding winners sorted
winners_eq [] = refl
winners_eq ((k, (x, [])) ∷ m) = ap (λ w. (k, x) ∷ w) (winners_eq m)
winners_eq ((k, (x, y ∷ ys)) ∷ m) = ap (λ w. (k, (sorted x (y ∷ ys)).0) ∷ w) (winners_eq m)

abbrev listed : Map Key Group → List ResolvedConflict
listed [] = []
listed ((k, g) ∷ m) = conflict_of k g ++ listed m

conflict_of-place :
    (k : Key) (x z : Block) (zs : List Block) (cs : List ResolvedConflict)
    → (record {
      account = k.0;
      nonce = k.1;
      winner_hash = z.hash;
      loser_hashes = hashes (place x zs);
    }
        ∷ cs)
      ≡ conflict_of k (z, place x zs) ++ cs
unfolding place
conflict_of-place k x z [] cs = refl
conflict_of-place k x z (y ∷ ys) cs = ground arith

conflicts_eq : (m : Map Key Group) → conflicts m ≡ listed (sorted_groups m)
unfolding conflicts sorted
conflicts_eq [] = refl
conflicts_eq ((k, (x, [])) ∷ m) = conflicts_eq m
conflicts_eq ((k, (x, y ∷ ys)) ∷ m) =
    ground
      (arith, conflicts_eq m, conflict_of-place k x (sorted y ys).0 (sorted y ys).1 (conflicts m))

lookup-sorted_groups :
    (k : Key) (m : Map Key Group)
    → lookup k (sorted_groups m) ≡ to_group (sorted_list (blocks_of (lookup k m)))
unfolding lookup
lookup-sorted_groups k [] = refl
lookup-sorted_groups k ((j, g) ∷ m) = ground (arith, lookup-sorted_groups k m)

After-sorted_groups : (k : Key) (m : Map Key Group) → After k m → After k (sorted_groups m)
After-sorted_groups k [] a = tt
After-sorted_groups k ((j, g) ∷ m) a = (a.0, After-sorted_groups k m a.1)

sorted_groups-IsSorted : (m : Map Key Group) → IsSorted m → IsSorted (sorted_groups m)
sorted_groups-IsSorted [] s = tt
sorted_groups-IsSorted ((k, g) ∷ m) s = (After-sorted_groups k m s.0, sorted_groups-IsSorted m s.1)

module _ (block_of : Str → Block) (xs ys : List Block) where
  sorted_groups_swap :
      IsDetermined block_of (xs ++ ys)
      → IsDetermined block_of (ys ++ xs)
      → sorted_groups (group [] (dedup [] (xs ++ ys)))
        ≡ sorted_groups (group [] (dedup [] (ys ++ xs)))
  unfolding lookup
  sorted_groups_swap u v =
      let m = group [] (dedup [] (xs ++ ys)) in
      let n = group [] (dedup [] (ys ++ xs)) in
      map_ext (sorted_groups m) (sorted_groups n)
        (sorted_groups-IsSorted m (group-IsSorted [] (dedup [] (xs ++ ys)) tt))
        (sorted_groups-IsSorted n (group-IsSorted [] (dedup [] (ys ++ xs)) tt))
        (λ k.
          lookup-sorted_groups k m
          ∙ ap (λ bs. to_group (sorted_list bs)) (blocks_of-group k [] (dedup [] (xs ++ ys)))
          ∙ ap to_group (sorted_list_swap block_of k xs ys u v)
          ∙ sym (
              lookup-sorted_groups k n
              ∙ ap (λ bs. to_group (sorted_list bs)) (blocks_of-group k [] (dedup [] (ys ++ xs)))))

-- Two nodes that reconcile the same two partitions, each naming its own first, get the same balances,
-- conflicts and refused receives and opens, or the same error or panic. The blocks of the partitions
-- are those that a function from hashes to blocks gives, so that no two different ones share a hash. The
-- conflicts are compared by account and nonce, not in the order of the code's `HashMap`; where several
-- accounts are in the red, the error names the first of them in the order of accounts.
pub reconcile_swap :
    (block_of : Str → Block) (partition_a partition_b : List Block)
    → IsDetermined block_of partition_a
    → IsDetermined block_of partition_b
    → reconcile_partitions partition_a partition_b ≡ reconcile_partitions partition_b partition_a
unfolding reconcile_partitions
reconcile_swap block_of xs ys u v =
    let Fits : Block → Type 0 = λ b. block_of b.hash ≡ b in
    let m = group [] (dedup [] (xs ++ ys)) in
    let n = group [] (dedup [] (ys ++ xs)) in
    ap (λ w. settle w (conflicts m)) (winners_eq m)
    ∙ ap (settle (firsts (sorted_groups m))) (conflicts_eq m)
    ∙ ap (λ s. settle (firsts s) (listed s))
        (sorted_groups_swap block_of xs ys (All-append Fits xs ys u v) (All-append Fits ys xs v u))
    ∙ sym (
        ap (λ w. settle w (conflicts n)) (winners_eq n)
        ∙ ap (settle (firsts (sorted_groups n))) (conflicts_eq n))
