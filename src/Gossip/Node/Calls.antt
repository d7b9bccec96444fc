-- ===== src/Gossip/Node/Calls.antt =====
-- Any calls on a node keep its stores within their capacities.
use arxia.Prelude.{ℕ, ◌+◌, ◌≤◌, ◌≡◌, refl, ap, ◌∙◌, List, [], ◌∷◌, ◌++◌, length, max, arith}
use arxia.Prelude.Ord.{Str, str_ord, nat_ord, pair_ord}
use arxia.Prelude.Result.{Result, ok, err, panic}
use arxia.Core.{ArxiaError}
use arxia.Lattice.Block.{Host, Block}
use arxia.Gossip.NonceRegistry.{NonceKey, NonceEntry, NonceRegistry, merge_nonce_registries}
use arxia.Gossip.Node.{
  GossipNode, with_capacity, make_room, track, remember, fresh, merge_registry, admit_block,
  block_key, accept_block, add_block, drain_pending_conflicts, add_peer,
}
use arxia.Gossip.Node.Invariant.{IsTracked, IsValid, IsKeys}
use arxia.Gossip.Node.Eviction.{evict-IsKept, shrink-IsKept}
use arxia.Gossip.Node.Preserve.{with_capacity-IsValid, accept_block-IsValid, merge_registry-IsValid}

abbrev capacities : GossipNode → ℕ × ℕ
capacities n = (n.known_blocks_capacity, n.nonce_registry_capacity)

capacities-accept_block :
    (n : GossipNode) (b : Block) (r : Result ArxiaError (NonceKey × NonceEntry))
    → capacities (accept_block n b r).1 ≡ capacities n
unfolding accept_block admit_block remember track make_room
capacities-accept_block n b (ok (key, hash)) = ground (arith, evict-IsKept n)
capacities-accept_block n b (err e) = refl
capacities-accept_block n b panic = refl

capacities-merge_registry :
    (iter : NonceRegistry → List NonceKey) (n : GossipNode) (remote : NonceRegistry)
    → capacities (merge_registry iter n remote).1 ≡ capacities n
unfolding merge_registry
capacities-merge_registry iter n remote =
    let merged = merge_nonce_registries n.nonce_registry remote in
    let order = n.nonce_registry_order ++ fresh n.nonce_registry (iter merged.0) in
    let k = shrink-IsKept (length order) (record n {
      nonce_registry = merged.0;
      pending_conflicts = n.pending_conflicts ++ merged.1;
      nonce_registry_order = order;
    }) in
    ground (arith, k.blocks_capacity, k.registry_capacity)

pub data Call : Type 0 where
  add_block_call : Block → Call
  merge_call : NonceRegistry → Call
  drain_call : Call
  peer_call : Str → Call

-- Every merge may walk the registry in another order.
module _ (h : Host) (iters : ℕ → NonceRegistry → List NonceKey) where
  pub apply : ℕ → GossipNode → Call → GossipNode
  apply i n (add_block_call b) = (add_block h n b).1
  apply i n (merge_call remote) = (merge_registry (iters i) n remote).1
  apply i n drain_call = (drain_pending_conflicts n).1
  apply i n (peer_call peer) = add_peer n peer

  pub run : ℕ → GossipNode → List Call → GossipNode
  run i n [] = n
  run i n (call ∷ calls) = run (i + 1) (apply i n call) calls

  apply-IsValid :
      (i : ℕ) (n : GossipNode) (call : Call)
      → IsKeys (iters i)
      → IsValid n
      → IsValid (apply i n call)
  unfolding apply add_block drain_pending_conflicts add_peer
  apply-IsValid i n (add_block_call b) laws v = accept_block-IsValid n b (block_key h b) v
  apply-IsValid i n (merge_call remote) laws v = merge_registry-IsValid (iters i) n remote laws v
  apply-IsValid i n drain_call laws v = ground (arith, v)
  apply-IsValid i n (peer_call peer) laws v = ground (arith, v)

  run_keeps :
      (i : ℕ) (n : GossipNode) (calls : List Call)
      → ((i : ℕ) → IsKeys (iters i))
      → IsValid n
      → IsValid (run i n calls)
  unfolding run
  run_keeps i n [] laws v = v
  run_keeps i n (call ∷ calls) laws v =
      run_keeps (i + 1) (apply i n call) calls laws (apply-IsValid i n call (laws i) v)

  capacities-apply :
      (i : ℕ) (n : GossipNode) (call : Call) → capacities (apply i n call) ≡ capacities n
  unfolding apply add_block drain_pending_conflicts add_peer
  capacities-apply i n (add_block_call b) = capacities-accept_block n b (block_key h b)
  capacities-apply i n (merge_call remote) = capacities-merge_registry (iters i) n remote
  capacities-apply i n drain_call = refl
  capacities-apply i n (peer_call peer) = refl

  capacities-run :
      (i : ℕ) (n : GossipNode) (calls : List Call) → capacities (run i n calls) ≡ capacities n
  unfolding run
  capacities-run i n [] = refl
  capacities-run i n (call ∷ calls) =
      capacities-run (i + 1) (apply i n call) calls ∙ capacities-apply i n call

  capacities-with_capacity :
      (id : Str) (a b : ℕ) → capacities (with_capacity id a b) ≡ (max a 1, max b 1)
  unfolding with_capacity
  capacities-with_capacity id a b = refl

  -- Whatever blocks and registries a node is sent, it keeps at most as many blocks and at most as many
  -- entries of its registry as it was given capacities, or one where a capacity was 0, and its order
  -- of eviction lists the keys of the registry, each once. The order in which a registry yields its
  -- keys may be another in every call.
  pub run_bounds :
      (node_id : Str) (known_blocks_capacity nonce_registry_capacity : ℕ) (calls : List Call)
      → ((i : ℕ) → IsKeys (iters i))
      → let n = run 0 (with_capacity node_id known_blocks_capacity nonce_registry_capacity) calls in
        (length n.known_blocks ≤ max known_blocks_capacity 1)
        × (length n.nonce_registry ≤ max nonce_registry_capacity 1)
        × IsTracked n.nonce_registry_order n.nonce_registry
  run_bounds node_id a b calls laws =
      let n = with_capacity node_id a b in
      let v = run_keeps 0 n calls laws (with_capacity-IsValid node_id a b) in
      let c = capacities-run 0 n calls ∙ capacities-with_capacity node_id a b in
      (
        omega (arith, v.blocks_within, ap (λ (p : ℕ × ℕ). p.0) c),
        omega (arith, v.registry_within, ap (λ (p : ℕ × ℕ). p.1) c),
        v.keys,
      )
