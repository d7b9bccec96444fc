-- ===== src/Consensus/Delegation/Calls.antt =====
-- Any calls of `delegate` and `revoke` on one graph, what each does, and who may revoke.
use arxia.Prelude.{
  ℕ, ◌+◌, ◌≡◌, ◌≢◌, ◌&&◌, true, none, some, List, [], ◌∷◌, arith, Bool-cases, inl, inr, sym, ◌∙◌,
  if◌then◌else◌,
}
use arxia.Prelude.Ord.{Str, eqb, str_ord, pair_ord}
use arxia.Prelude.Map.{lookup, contains_key}
use arxia.Prelude.Map.Laws.{lookup-insert}
use arxia.Prelude.Words.{Bytes}
use arxia.Prelude.Result.{Result, ok, panic}
use arxia.Crypto.{Primitives, IsSigner, verify}
use arxia.Consensus.Delegation.{
  Delegation, Revocation, DelegationError, DelegationGraph, Iteration, delegate, revoke, add_edge,
  new, max_delegation_depth, verify_revocation, canonical_bytes,
}
use arxia.Consensus.Delegation.Search.{IsIteration, Leads, check_sound}
use arxia.Consensus.Delegation.Invariant.{
  IsValid, new-IsValid, delegate-IsValid, delegate-ne-panic, revoke-IsValid, lookup-removed,
}

pub data Call : Type 0 where
  delegate_call : Delegation → Call
  revoke_call : Revocation → Call

-- The sets of neighbours may be walked in another order in every call.
module _ (c : Primitives) (iters : ℕ → Iteration) where
  unfoldable pub apply :
      ℕ → DelegationGraph → Call → Result DelegationError (Unit {0}) × DelegationGraph
  apply n g (delegate_call d) = delegate (iters n) g d
  apply n g (revoke_call rev) = revoke c g rev

  unfoldable pub run_calls : ℕ → DelegationGraph → List Call → DelegationGraph
  run_calls n g [] = g
  run_calls n g (call ∷ calls) = run_calls (n + 1) (apply n g call).1 calls

  run_keeps :
      (n : ℕ) (g : DelegationGraph) (calls : List Call)
      → ((n : ℕ) → IsIteration (iters n))
      → IsValid g
      → IsValid (run_calls n g calls)
  unfolding run_calls apply
  run_keeps n g [] laws v = v
  run_keeps n g (delegate_call d ∷ calls) laws v =
      run_keeps (n + 1) (delegate (iters n) g d).1 calls laws
        (delegate-IsValid (iters n) (laws n) d g v)
  run_keeps n g (revoke_call rev ∷ calls) laws v =
      run_keeps (n + 1) (revoke c g rev).1 calls laws (revoke-IsValid c rev g v)

  -- After any calls of `delegate` and `revoke` on a new graph, in whatever orders the sets of
  -- neighbours are walked, no walk leads from a node back to itself, `edges` and `adjacency` hold the
  -- same edges, and every edge is filed under its two ends.
  pub run_calls-IsValid :
      (calls : List Call) → ((n : ℕ) → IsIteration (iters n)) → IsValid (run_calls 0 new calls)
  run_calls-IsValid calls laws = run_keeps 0 new calls laws new-IsValid

module _ (iter : Iteration) (laws : IsIteration iter) (d : Delegation) (g : DelegationGraph) where
  abbrev key : Str × Str
  key = (d.delegator, d.representative)

  delegate_walk :
      IsValid g → (delegate iter g d).0 ≡ ok tt → Leads g.adjacency d.representative d.delegator → ⊥
  unfolding delegate add_edge
  delegate_walk v e w = elim (Bool-cases (eqb d.delegator d.representative)) [
    | inl self ↦ cc (rw self at e)
    | inr other ↦ elim (Bool-cases (contains_key key g.edges)) [
      | inl known ↦
          v.acyclic d.delegator d.representative
            (sym (v.agree d.delegator d.representative) ∙ known) w
      | inr unknown ↦
          check_sound iter laws g.adjacency d.representative d.delegator max_delegation_depth
            (ground (arith, e)) w
    ]
  ]

  -- On a graph that satisfies the invariant `delegate` returns, since its search ends. A refusal leaves
  -- the graph as it was. A success enters the delegation under its two ends, leaves every other edge as
  -- it was, and happens only if no walk, of any length, leads from the representative to the delegator.
  pub delegate_lem :
      IsValid g
      → ((delegate iter g d).0 ≢ panic)
        × ((delegate iter g d).0 ≢ ok tt → (delegate iter g d).1 ≡ g)
        × ((delegate iter g d).0 ≡ ok tt
            → ((k : Str × Str)
                → lookup k (delegate iter g d).1.edges
                  ≡ (if eqb k (d.delegator, d.representative) then some d else lookup k g.edges))
              × ¬ Leads g.adjacency d.representative d.delegator)
  unfolding delegate add_edge
  delegate_lem v = (
    delegate-ne-panic iter laws d g,
    λ h. ground (arith, h),
    λ e. (
      λ k. ground (arith, e, lookup-insert k (d.delegator, d.representative) d g.edges),
      delegate_walk v e,
    ),
  )

module _ (c : Primitives) (g : DelegationGraph) where
  -- A revocation of the edge from `delegator` to `representative`, signed by the holder of `key`.
  abbrev pub revocation : Bytes → Str → Str → ℕ → Revocation
  revocation key delegator representative nonce = record {
    delegator_pubkey = c.public_of key;
    delegator = delegator;
    representative = representative;
    nonce = nonce;
    signature = c.sign key (canonical_bytes (c.public_of key) delegator representative nonce);
  }

  -- Whoever holds any key whose signatures verify can revoke any edge of a graph that satisfies the
  -- invariant, with any nonce: the edge goes, and all others stay. Neither the key nor the nonce is
  -- compared with anything that the graph knows of the delegator.
  pub revoke_by_anyone :
      (key : Bytes) (delegator representative : Str) (nonce : ℕ)
      → IsSigner c key
      → c.is_point (c.public_of key) ≡ true
      → IsValid g
      → contains_key {K = Str × Str} (delegator, representative) g.edges ≡ true
      → ((revoke c g (revocation key delegator representative nonce)).0 ≡ ok tt)
        × ((x y : Str)
            → lookup {K = Str × Str}
                (x, y)
                (revoke c g (revocation key delegator representative nonce)).1.edges
              ≡ (if eqb x delegator && eqb y representative
                  then none
                  else lookup {K = Str × Str} (x, y) g.edges))
  unfolding revoke verify_revocation verify
  revoke_by_anyone key delegator representative nonce s point v here =
      let rev = revocation key delegator representative nonce in
      let signed =
        s.verify-sign (canonical_bytes (c.public_of key) delegator representative nonce) in
      (
        ground (arith, signed, point, here),
        λ x y. ground (arith, signed, point, here, lookup-removed c rev g v x y),
      )
