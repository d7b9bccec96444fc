-- ===== src/Consensus/Delegation/Tests.antt =====
-- Graphs at which the theorems on them are applied.
use arxia.Prelude.{ℕ, ◌≡◌, ◌≢◌, ◌&&◌, refl, none, some, List, [], ◌∷◌, length, arith, if◌then◌else◌}
use arxia.Prelude.Ord.{Str, eqb, str_ord, pair_ord, cmp_str}
use arxia.Prelude.Elem.{elem}
use arxia.Prelude.Map.{Set, lookup, insert, contains_key}
use arxia.Prelude.Words.{saturating_add}
use arxia.Prelude.Result.{ok, err, panic}
use arxia.Crypto.Toy.{toy, toy-IsSigner}
use arxia.Consensus.Delegation.{
  Delegation, DelegationGraph, Iteration, delegate, revoke, new, values, snapshot, total_for,
  total_for_representative, total_delegated_stake, cycle_detected, add_edge, connect,
  check_no_path_within_depth, search, search_fuel, push_all,
}
use arxia.Consensus.Delegation.Search.{IsIteration, Leads}
use arxia.Consensus.Delegation.Invariant.{IsValid}
use arxia.Consensus.Delegation.Totals.{stake_of, snapshot_lem}
use arxia.Consensus.Delegation.Calls.{
  Call, delegate_call, run_calls, apply, run_calls-IsValid, delegate_lem, revocation,
  revoke_by_anyone,
}

-- The ascending order.
abbrev ascending : Iteration
ascending [] = []
ascending ((x, u) ∷ s) = x ∷ ascending s

elem-ascending : (x : Str) (s : Set Str) → elem x (ascending s) ≡ contains_key x s
unfolding lookup
elem-ascending x [] = refl
elem-ascending x ((y, u) ∷ s) = ground (arith, elem-ascending x s)

length-ascending : (s : Set Str) → length (ascending s) ≡ length s
length-ascending [] = refl
length-ascending (x ∷ s) = omega (arith, length-ascending s)

ascending-IsIteration : IsIteration ascending
ascending-IsIteration = record { elem_iter = elem-ascending; length-iter = length-ascending }

abbrev delegation : Str → Str → ℕ → Delegation
delegation delegator representative amount = record {
  delegator = delegator;
  representative = representative;
  amount = amount;
  created_at = 0;
}

abbrev a : Str
a = 1 ∷ []

abbrev b : Str
b = 2 ∷ []

abbrev k : Str
k = 3 ∷ []

abbrev calls : List Call
calls = delegate_call (delegation a b 5) ∷ delegate_call (delegation b k 7) ∷ []

abbrev graph : DelegationGraph
graph = run_calls toy (λ n. ascending) 0 new calls

run_calls-IsValid_example : IsValid (run_calls toy (λ n. ascending) 0 new calls)
run_calls-IsValid_example =
    run_calls-IsValid toy (λ n. ascending) calls (λ n. ascending-IsIteration)

-- The third edge would close a cycle.
closes : (delegate ascending graph (delegation k a 1)).0 ≡ err (cycle_detected k a)
unfolding run_calls apply delegate add_edge connect check_no_path_within_depth search search_fuel
    push_all lookup insert cmp_str
closes = refl

delegate_lem_example :
    ((delegate ascending graph (delegation a k 2)).0 ≢ panic)
    × ((delegate ascending graph (delegation a k 2)).0 ≢ ok tt
        → (delegate ascending graph (delegation a k 2)).1 ≡ graph)
    × ((delegate ascending graph (delegation a k 2)).0 ≡ ok tt
        → ((key : Str × Str)
            → lookup key (delegate ascending graph (delegation a k 2)).1.edges
              ≡ (if eqb key (a, k) then some (delegation a k 2) else lookup key graph.edges))
          × ¬ Leads graph.adjacency k a)
delegate_lem_example =
    delegate_lem ascending ascending-IsIteration (delegation a k 2) graph run_calls-IsValid_example

revoke_by_anyone_example :
    ((revoke toy graph (revocation toy graph (9 ∷ []) a b 0)).0 ≡ ok tt)
    × ((x y : Str)
        → lookup {K = Str × Str}
            (x, y)
            (revoke toy graph (revocation toy graph (9 ∷ []) a b 0)).1.edges
          ≡ (if eqb x a && eqb y b then none else lookup {K = Str × Str} (x, y) graph.edges))
unfolding run_calls apply delegate add_edge connect check_no_path_within_depth search search_fuel
    push_all lookup insert cmp_str
revoke_by_anyone_example =
    revoke_by_anyone toy graph (9 ∷ []) a b 0 (toy-IsSigner (9 ∷ [])) refl run_calls-IsValid_example
      refl

snapshot_lem_example :
    (total_for (snapshot graph) k ≡ saturating_add 0 (stake_of k (values graph.edges)))
    × (total_for_representative graph k ≡ saturating_add 0 (stake_of k (values graph.edges)))
    × (total_delegated_stake k (values graph.edges)
        ≡ saturating_add 0 (stake_of k (values graph.edges)))
snapshot_lem_example = snapshot_lem graph k
