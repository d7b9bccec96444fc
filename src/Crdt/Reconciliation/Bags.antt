-- ===== src/Crdt/Reconciliation/Bags.antt =====
-- A group of blocks of distinct hashes, sorted, as a map from hashes to blocks.
use arxia.Prelude.{
  Bool, ◌≡◌, refl, sym, ap, ◌∙◌, true, false, Option, none, some, List, [], ◌∷◌, ◌++◌, arith,
  Bool-cases, inl, inr, All, if◌then◌else◌,
}
use arxia.Prelude.Ord.{Str, eqb, eqb_iff, str-IsTotal, str_ord, nat_ord, pair_ord}
use arxia.Prelude.Map.{Map, Set, lookup, insert, contains_key, IsSorted}
use arxia.Prelude.Map.Laws.{lookup-insert, insert-IsSorted}
use arxia.Prelude.Map.Ext.{map_ext}
use arxia.Lattice.Block.{Block}
use arxia.Crdt.Reconciliation.{Key, Group, key_of, dedup, place, sorted}
use arxia.Crdt.Reconciliation.Groups.{with_key}

mem : Str → List Block → Bool
mem h [] = false
mem h (b ∷ bs) = if eqb h b.hash then true else mem h bs

IsDistinct : List Block → Type 0
IsDistinct [] = Unit {0}
IsDistinct (b ∷ bs) = (mem b.hash bs ≡ false) × IsDistinct bs

mem-dedup :
    (h : Str) (seen : Set Str) (bs : List Block)
    → mem h (dedup seen bs) ≡ (if contains_key h seen then false else mem h bs)
unfolding mem dedup
mem-dedup h seen [] = ground arith
mem-dedup h seen (b ∷ bs) = ground (
  arith,
  mem-dedup h seen bs,
  mem-dedup h (insert b.hash tt seen) bs,
  lookup-insert h b.hash tt seen,
  eqb_iff h b.hash,
  ap (λ i. lookup i seen),
)

dedup-IsDistinct : (seen : Set Str) (bs : List Block) → IsDistinct (dedup seen bs)
unfolding IsDistinct dedup
dedup-IsDistinct seen [] = tt
dedup-IsDistinct seen (b ∷ bs) = ground (
  arith,
  dedup-IsDistinct seen bs,
  dedup-IsDistinct (insert b.hash tt seen) bs,
  mem-dedup b.hash (insert b.hash tt seen) bs,
  lookup-insert b.hash b.hash tt seen,
  eqb_iff b.hash b.hash,
)

not_mem-with_key :
    (k : Key) (h : Str) (bs : List Block) → mem h bs ≡ false → mem h (with_key k bs) ≡ false
unfolding mem
not_mem-with_key k h [] e = refl
not_mem-with_key k h (b ∷ bs) e = ground (arith, not_mem-with_key k h bs, e)

with_key-IsDistinct : (k : Key) (bs : List Block) → IsDistinct bs → IsDistinct (with_key k bs)
unfolding IsDistinct
with_key-IsDistinct k [] d = tt
with_key-IsDistinct k (b ∷ bs) d =
    ground (arith, with_key-IsDistinct k bs d.1, not_mem-with_key k b.hash bs d.0)

bag : List Block → Map Str Block
bag [] = []
bag (b ∷ bs) = insert b.hash b (bag bs)

bag-IsSorted : (bs : List Block) → IsSorted (bag bs)
unfolding bag
bag-IsSorted [] = tt
bag-IsSorted (b ∷ bs) = insert-IsSorted b.hash b (bag bs) (bag-IsSorted bs)

abbrev values : Map Str Block → List Block
values [] = []
values ((h, b) ∷ m) = b ∷ values m

abbrev IsByHash : Map Str Block → Type 0
IsByHash m = All (λ p. p.1.hash ≡ p.0) m

insert-IsByHash : (b : Block) (m : Map Str Block) → IsByHash m → IsByHash (insert b.hash b m)
unfolding insert
insert-IsByHash b [] h = (refl, tt)
insert-IsByHash b ((j, d) ∷ m) h = ground (arith, insert-IsByHash b m h.1, h)

bag-IsByHash : (bs : List Block) → IsByHash (bag bs)
unfolding bag
bag-IsByHash [] = tt
bag-IsByHash (b ∷ bs) = insert-IsByHash b (bag bs) (bag-IsByHash bs)

values-insert :
    (b : Block) (m : Map Str Block)
    → IsByHash m
    → lookup b.hash m ≡ none
    → values (insert b.hash b m) ≡ place b (values m)
unfolding insert lookup place
values-insert b [] h e = refl
values-insert b ((j, d) ∷ m) h e =
    ground (arith, values-insert b m h.1, h.0, e, str-IsTotal.eq_of_cmp b.hash j, eqb_iff b.hash j)

lookup-bag-none : (h : Str) (bs : List Block) → mem h bs ≡ false → lookup h (bag bs) ≡ none
unfolding bag mem lookup
lookup-bag-none h [] e = refl
lookup-bag-none h (b ∷ bs) e =
    ground (arith, lookup-bag-none h bs, lookup-insert h b.hash b (bag bs), e)

-- The blocks of a group that is sorted.
abbrev pub sorted_list : List Block → List Block
sorted_list [] = []
sorted_list (x ∷ xs) = let s = sorted x xs in s.0 ∷ s.1

sorted_list-cons : (x : Block) (xs : List Block) → sorted_list (x ∷ xs) ≡ place x (sorted_list xs)
unfolding sorted place
sorted_list-cons x [] = refl
sorted_list-cons x (y ∷ ys) = ground arith

sorted_list-bag : (bs : List Block) → IsDistinct bs → sorted_list bs ≡ values (bag bs)
unfolding IsDistinct bag
sorted_list-bag [] d = refl
sorted_list-bag (b ∷ bs) d =
    sorted_list-cons b bs
    ∙ ap (place b) (sorted_list-bag bs d.1)
    ∙ sym (values-insert b (bag bs) (bag-IsByHash bs) (lookup-bag-none b.hash bs d.0))

-- A group of the blocks, in their order.
abbrev pub to_group : List Block → Option Group
to_group [] = none
to_group (x ∷ xs) = some (x, xs)

module _ (block_of : Str → Block) where
  -- No two different blocks of the list share a hash: it determines the block.
  abbrev pub IsDetermined : List Block → Type 0
  IsDetermined bs = All (λ b. block_of b.hash ≡ b) bs

  lookup-bag :
      (h : Str) (bs : List Block)
      → IsDetermined bs
      → lookup h (bag bs) ≡ (if mem h bs then some (block_of h) else none)
  unfolding bag mem lookup
  lookup-bag h [] u = refl
  lookup-bag h (b ∷ bs) u = ground (
    arith,
    lookup-bag h bs u.1,
    lookup-insert h b.hash b (bag bs),
    eqb_iff h b.hash,
    u.0,
    ap block_of,
  )

  mem-with_key :
      (k : Key) (h : Str) (bs : List Block)
      → IsDetermined bs
      → mem h (with_key k bs) ≡ (if eqb k (key_of (block_of h)) then mem h bs else false)
  unfolding mem
  mem-with_key k h [] u = ground arith
  mem-with_key k h (b ∷ bs) u = elim (Bool-cases (eqb h b.hash)) [
    | inl same ↦
        let e : block_of h ≡ b = ap block_of ((eqb_iff h b.hash).0 same) ∙ u.0 in
        rw e (ground (arith, mem-with_key k h bs u.1, same, e))
    | inr other ↦ ground (arith, mem-with_key k h bs u.1, other)
  ]

  with_key-IsDetermined :
      (k : Key) (bs : List Block) → IsDetermined bs → IsDetermined (with_key k bs)
  with_key-IsDetermined k [] u = tt
  with_key-IsDetermined k (b ∷ bs) u = ground (arith, with_key-IsDetermined k bs u.1, u)

  dedup-IsDetermined :
      (seen : Set Str) (bs : List Block) → IsDetermined bs → IsDetermined (dedup seen bs)
  unfolding dedup
  dedup-IsDetermined seen [] u = tt
  dedup-IsDetermined seen (b ∷ bs) u =
      ground (
        arith,
        dedup-IsDetermined seen bs u.1,
        dedup-IsDetermined (insert b.hash tt seen) bs u.1,
        u,
      )

  mem-append :
      (h : Str) (xs ys : List Block) → mem h (xs ++ ys) ≡ (if mem h xs then true else mem h ys)
  unfolding mem
  mem-append h [] ys = refl
  mem-append h (x ∷ xs) ys = ground (arith, mem-append h xs ys)

  lookup-bag-with_key :
      (k : Key) (h : Str) (bs : List Block)
      → IsDetermined bs
      → lookup h (bag (with_key k (dedup [] bs))) ≡ (
          if eqb k (key_of (block_of h))
          then if mem h bs then some (block_of h) else none
          else none)
  unfolding lookup
  lookup-bag-with_key k h bs u =
      let v = dedup-IsDetermined [] bs u in
      lookup-bag h (with_key k (dedup [] bs)) (with_key-IsDetermined k (dedup [] bs) v)
      ∙ ground (arith, mem-with_key k h (dedup [] bs) v, mem-dedup h [] bs)

  bag_swap :
      (k : Key) (xs ys : List Block)
      → IsDetermined (xs ++ ys)
      → IsDetermined (ys ++ xs)
      → bag (with_key k (dedup [] (xs ++ ys))) ≡ bag (with_key k (dedup [] (ys ++ xs)))
  bag_swap k xs ys u v =
      map_ext (bag (with_key k (dedup [] (xs ++ ys)))) (bag (with_key k (dedup [] (ys ++ xs))))
        (bag-IsSorted (with_key k (dedup [] (xs ++ ys))))
        (bag-IsSorted (with_key k (dedup [] (ys ++ xs))))
        (λ h. ground (
          arith,
          lookup-bag-with_key k h (xs ++ ys) u,
          lookup-bag-with_key k h (ys ++ xs) v,
          mem-append h xs ys,
          mem-append h ys xs,
        ))

  pub sorted_list_swap :
      (k : Key) (xs ys : List Block)
      → IsDetermined (xs ++ ys)
      → IsDetermined (ys ++ xs)
      → sorted_list (with_key k (dedup [] (xs ++ ys)))
        ≡ sorted_list (with_key k (dedup [] (ys ++ xs)))
  sorted_list_swap k xs ys u v =
      sorted_list-bag (with_key k (dedup [] (xs ++ ys)))
        (with_key-IsDistinct k (dedup [] (xs ++ ys)) (dedup-IsDistinct [] (xs ++ ys)))
      ∙ ap values (bag_swap k xs ys u v)
      ∙ sym (
          sorted_list-bag (with_key k (dedup [] (ys ++ xs)))
            (with_key-IsDistinct k (dedup [] (ys ++ xs)) (dedup-IsDistinct [] (ys ++ xs))))
