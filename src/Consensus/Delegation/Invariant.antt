-- ===== src/Consensus/Delegation/Invariant.antt =====
-- The invariant of the delegation graph, which `delegate` and `revoke` keep.
use arxia.Prelude.{
  ◌≡◌, ◌≢◌, ◌&&◌, not, refl, true, none, some, arith, Bool-cases, inl, inr, if◌then◌else◌,
}
use arxia.Prelude.Ord.{Str, eqb, eqb_iff, str_ord, pair_ord}
use arxia.Prelude.Map.{lookup, insert, remove, contains_key, IsSorted}
use arxia.Prelude.Map.Laws.{
  lookup-insert, insert-IsSorted, remove-IsSorted, lookup-remove_ne, lookup-remove_self,
}
use arxia.Prelude.Result.{Result, ok, err, panic}
use arxia.Crypto.{Primitives}
use arxia.Consensus.Delegation.{
  Delegation, Revocation, DelegationError, DelegationGraph, Iteration, neighbors, connect,
  disconnect, delegate, revoke, new, add_edge, check_no_path_within_depth, max_delegation_depth,
}
use arxia.Consensus.Delegation.Search.{IsIteration, has_edge, Leads, check_sound, check-ne-panic}
use arxia.Consensus.Delegation.Acyclic.{IsAcyclic, IsAcyclic-mono, IsAcyclic-connect}
use arxia.Consensus.Delegation.Edges.{
  has_edge-connect, connect-IsSorted, sets_sorted-connect, has_edge-disconnect, disconnect-IsSorted,
  sets_sorted-disconnect,
}

eqb_pair : (x y a b : Str) → eqb {K = Str × Str} (x, y) (a, b) ≡ (eqb x a && eqb y b)
eqb_pair x y a b = ground arith

-- The maps are in order, both hold the same edges, an edge is filed under its two ends, and no walk
-- leads back to where it started.
pub record IsValid (g : DelegationGraph) : Type 0 where
  edges_sorted : IsSorted g.edges
  adjacency_sorted : IsSorted g.adjacency
  sets_sorted : (x : Str) → IsSorted (neighbors g.adjacency x)
  pub agree : (x y : Str) → contains_key {K = Str × Str} (x, y) g.edges ≡ has_edge g.adjacency x y
  pub filed :
      (x y : Str) (d : Delegation)
      → lookup (x, y) g.edges ≡ some d
      → (d.delegator ≡ x) × (d.representative ≡ y)
  pub acyclic : IsAcyclic g.adjacency

pub new-IsValid : IsValid new
unfolding lookup
new-IsValid = record {
  edges_sorted = tt;
  adjacency_sorted = tt;
  sets_sorted = λ x. tt;
  agree = λ x y. refl;
  filed = λ x y d e. cc;
  acyclic = λ x y e p. cc;
}

module _ (from to : Str) (d : Delegation) (g : DelegationGraph) (v : IsValid g) where
  filed-insert :
      d.delegator ≡ from
      → d.representative ≡ to
      → (x y : Str) (e : Delegation) → lookup (x, y) (insert (from, to) d g.edges) ≡ some e
      → (e.delegator ≡ x) × (e.representative ≡ y)
  filed-insert a b x y e h = ground (
    arith,
    v.filed x y e,
    lookup-insert {K = Str × Str} (x, y) (from, to) d g.edges,
    eqb_pair x y from to,
    eqb_iff x from,
    eqb_iff y to,
  )

module _ (d : Delegation) (g : DelegationGraph) (v : IsValid g) where
  abbrev key : Str × Str
  key = (d.delegator, d.representative)

  update-IsValid :
      contains_key key g.edges ≡ true → IsValid (record g { edges = insert key d g.edges })
  update-IsValid c = record {
    edges_sorted = insert-IsSorted key d g.edges v.edges_sorted;
    adjacency_sorted = v.adjacency_sorted;
    sets_sorted = v.sets_sorted;
    agree = λ x y. ground (
      arith,
      v.agree x y,
      lookup-insert {K = Str × Str} (x, y) key d g.edges,
      eqb_iff {K = Str × Str} (x, y) key,
      c,
    );
    filed = filed-insert d.delegator d.representative d g v refl refl;
    acyclic = v.acyclic;
  }

  connect-IsValid :
      (Leads g.adjacency d.representative d.delegator → ⊥)
      → IsValid (record {
        edges = insert key d g.edges;
        adjacency = connect d.delegator d.representative g.adjacency;
      })
  connect-IsValid back = record {
    edges_sorted = insert-IsSorted key d g.edges v.edges_sorted;
    adjacency_sorted = connect-IsSorted d.delegator d.representative g.adjacency v.adjacency_sorted;
    sets_sorted = sets_sorted-connect d.delegator d.representative g.adjacency v.sets_sorted;
    agree = λ x y. ground (
      arith,
      v.agree x y,
      lookup-insert {K = Str × Str} (x, y) key d g.edges,
      eqb_pair x y d.delegator d.representative,
      has_edge-connect d.delegator d.representative g.adjacency x y,
    );
    filed = filed-insert d.delegator d.representative d g v refl refl;
    acyclic =
        IsAcyclic-connect g.adjacency (connect d.delegator d.representative g.adjacency) d.delegator
          d.representative (has_edge-connect d.delegator d.representative g.adjacency) v.acyclic
          back;
  }

  add_edge-IsValid :
      (r : Result DelegationError (Unit {0}))
      → (r ≡ ok tt → Leads g.adjacency d.representative d.delegator → ⊥)
      → IsValid (add_edge g d r).1
  unfolding add_edge
  add_edge-IsValid (ok u) back = connect-IsValid (back refl)
  add_edge-IsValid (err e) back = v
  add_edge-IsValid panic back = v

module _ (iter : Iteration) (laws : IsIteration iter) (d : Delegation) (g : DelegationGraph) where
  pub delegate-IsValid : IsValid g → IsValid (delegate iter g d).1
  unfolding delegate
  delegate-IsValid v = elim (Bool-cases (eqb d.delegator d.representative)) [
    | inl self ↦ rw self v
    | inr other ↦ elim (Bool-cases (contains_key (d.delegator, d.representative) g.edges)) [
      | inl known ↦ rw (other, known) (update-IsValid d g v known)
      | inr unknown ↦
          rw (other, unknown)
            (add_edge-IsValid d g v
              (check_no_path_within_depth iter g.adjacency d.representative d.delegator
                max_delegation_depth)
              (check_sound iter laws g.adjacency d.representative d.delegator max_delegation_depth))
    ]
  ]

  pub delegate-ne-panic : (delegate iter g d).0 ≢ panic
  unfolding delegate add_edge
  delegate-ne-panic = ground (
    arith,
    check-ne-panic iter laws g.adjacency d.representative d.delegator max_delegation_depth,
  )

module _ (c : Primitives) (rev : Revocation) (g : DelegationGraph) where
  abbrev pub removed : DelegationGraph
  removed = record {
    edges = remove (rev.delegator, rev.representative) g.edges;
    adjacency = disconnect rev.delegator rev.representative g.adjacency;
  }

  has_edge-removed :
      IsValid g
      → (x y : Str)
      → has_edge removed.adjacency x y
        ≡ (has_edge g.adjacency x y && not (eqb x rev.delegator && eqb y rev.representative))
  has_edge-removed v x y =
      has_edge-disconnect rev.delegator rev.representative g.adjacency x y v.adjacency_sorted
        (v.sets_sorted x)

  pub lookup-removed :
      IsValid g
      → (x y : Str)
      → lookup {K = Str × Str} (x, y) removed.edges ≡ (
          if eqb x rev.delegator && eqb y rev.representative
          then none
          else lookup {K = Str × Str} (x, y) g.edges)
  lookup-removed v x y = ground (
    arith,
    eqb_pair x y rev.delegator rev.representative,
    eqb_iff {K = Str × Str} (x, y) (rev.delegator, rev.representative),
    lookup-remove_self {K = Str × Str} (rev.delegator, rev.representative) g.edges v.edges_sorted,
    lookup-remove_ne {K = Str × Str} (x, y) (rev.delegator, rev.representative) g.edges,
  )

  removed-IsValid : IsValid g → IsValid removed
  removed-IsValid v = record {
    edges_sorted = remove-IsSorted (rev.delegator, rev.representative) g.edges v.edges_sorted;
    adjacency_sorted =
        disconnect-IsSorted rev.delegator rev.representative g.adjacency v.adjacency_sorted;
    sets_sorted =
        sets_sorted-disconnect rev.delegator rev.representative g.adjacency v.adjacency_sorted
          v.sets_sorted;
    agree = λ x y. ground (arith, v.agree x y, lookup-removed v x y, has_edge-removed v x y);
    filed = λ x y d e. ground (arith, v.filed x y d, lookup-removed v x y, e);
    acyclic =
        IsAcyclic-mono removed.adjacency g.adjacency
          (λ x y e. ground (arith, has_edge-removed v x y, e)) v.acyclic;
  }

  pub revoke-IsValid : IsValid g → IsValid (revoke c g rev).1
  unfolding revoke
  revoke-IsValid v = ground (arith, removed-IsValid v)
