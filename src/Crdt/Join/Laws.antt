-- ===== src/Crdt/Join/Laws.antt =====
-- The join is commutative, associative and idempotent, and the least upper bound of its parts.
use arxia.Prelude.{ℕ, max, ◌≡◌, ◌↔◌, Option, arith}
use arxia.Prelude.Ord.{Str, str_ord}
use arxia.Prelude.Map.{Map, lookup, IsSorted}
use arxia.Prelude.Map.Ext.{map_ext}
use arxia.Prelude.Map.Merge.{merged, merge_by-IsSorted, lookup-merge_by}
use arxia.Clock.{count_of}
use arxia.Clock.Causality.{AtMost}
use arxia.Crdt.Join.{join, raise}

join-IsSorted : (v w : Map Str ℕ) → IsSorted v → IsSorted (join v w)
join-IsSorted v w s = merge_by-IsSorted raise v w s

count_of-join :
    (k : Str) (v w : Map Str ℕ)
    → IsSorted w
    → count_of k (join v w) ≡ max (count_of k v) (count_of k w)
count_of-join k v w s = ground (arith, lookup-merge_by raise k v w s)

merged_comm : (x y : Option ℕ) → merged raise x y ≡ merged raise y x
merged_comm x y = ground arith

merged_assoc :
    (x y z : Option ℕ) → merged raise (merged raise x y) z ≡ merged raise x (merged raise y z)
merged_assoc x y z = ground arith

merged_idem : (x : Option ℕ) → merged raise x x ≡ x
merged_idem x = ground arith

pub join_comm : (v w : Map Str ℕ) → IsSorted v → IsSorted w → join v w ≡ join w v
join_comm v w s t = map_ext (join v w) (join w v) (join-IsSorted v w s) (join-IsSorted w v t) (λ k.
    cc (
      lookup-merge_by raise k v w t,
      lookup-merge_by raise k w v s,
      merged_comm (lookup k v) (lookup k w),
    ))

pub join_assoc :
    (u v w : Map Str ℕ)
    → IsSorted u
    → IsSorted v
    → IsSorted w
    → join (join u v) w ≡ join u (join v w)
join_assoc u v w r s t =
    map_ext (join (join u v) w) (join u (join v w))
      (join-IsSorted (join u v) w (join-IsSorted u v r)) (join-IsSorted u (join v w) r)
      (λ k. cc (
        lookup-merge_by raise k (join u v) w t,
        lookup-merge_by raise k u v s,
        lookup-merge_by raise k u (join v w) (join-IsSorted v w s),
        lookup-merge_by raise k v w t,
        merged_assoc (lookup k u) (lookup k v) (lookup k w),
      ))

pub join_idem : (v : Map Str ℕ) → IsSorted v → join v v ≡ v
join_idem v s =
    map_ext (join v v) v (join-IsSorted v v s) s
      (λ k. cc (lookup-merge_by raise k v v s, merged_idem (lookup k v)))

-- Where the second part is in order of its keys, a clock (or half of a counter) is at least the
-- join exactly if it is at least both parts.
join_lub : (v w u : Map Str ℕ) → IsSorted w → AtMost (join v w) u ↔ (AtMost v u × AtMost w u)
join_lub v w u t = (
  (λ below. (
    (λ k. ground (arith, below k, count_of-join k v w t)),
    (λ k. ground (arith, below k, count_of-join k v w t)),
  )),
  (λ p k. ground (arith, p.0 k, p.1 k, count_of-join k v w t)),
)
