-- ===== src/Crdt/Tests.antt =====
-- Replicas at which the theorems on the replicated types are applied.
use arxia.Prelude.{ℕ, ◌≡◌, true, refl, List, [], ◌∷◌, arith}
use arxia.Prelude.Ord.{Str, cmp_str, str_ord, nat_ord}
use arxia.Prelude.Map.{Map, lookup}
use arxia.Prelude.Int.{diff}
use arxia.Crdt.PnCounter.{PnCounter, new, merge, value}
use arxia.Crdt.PnCounter.Convergence.{merge_converges}
use arxia.Crdt.PnCounter.Balance.{Op, inc, dec, run, incremented, decremented, value-run}
use arxia.Crdt.OrSet.{OrSet, contains, remove_element}
use arxia.Crdt.OrSet
use arxia.Crdt.OrSet.Convergence.{contains-merge-remove_element}

abbrev at_a : Map Str ℕ
at_a = ((97 ∷ []), 5) ∷ []

abbrev at_b : Map Str ℕ
at_b = ((97 ∷ []), 3) ∷ ((98 ∷ []), 4) ∷ []

abbrev left : PnCounter
left = record { p = at_a; n = [] }

abbrev right : PnCounter
right = record { p = at_b; n = at_a }

merge_converges_example :
    (merge left right ≡ merge right left)
    × (merge (merge left right) left ≡ merge left (merge right left))
    × (merge left left ≡ left)
unfolding cmp_str
merge_converges_example =
    merge_converges left right left ((tt, tt), tt) (((refl, tt), (tt, tt)), (tt, tt)) ((tt, tt), tt)

abbrev ops : List Op
ops = inc (97 ∷ []) 50 ∷ dec (98 ∷ []) 70 ∷ inc (97 ∷ []) 10 ∷ []

value-run_example : value (run ops new) ≡ diff 60 70
unfolding incremented decremented
value-run_example = value-run ops (omega arith) (omega arith) (omega arith) (omega arith)

abbrev with_three : OrSet ℕ
with_three = record {
  elements = (3, ((97 ∷ []), tt) ∷ []) ∷ [];
  tag_counter = 1;
  node_id = 97 ∷ [];
}

contains-merge-remove_element_example :
    contains 3 (OrSet.merge (remove_element 3 with_three).1 with_three) ≡ true
unfolding contains lookup
contains-merge-remove_element_example =
    contains-merge-remove_element 3 with_three with_three (tt, tt) (tt, tt)
