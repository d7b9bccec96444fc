-- ===== src/Gossip/Node/Tests.antt =====
-- A node and calls at which the theorems on them are applied.
use arxia.Prelude.{
  ◌≤◌, ◌≡◌, ◌≢◌, refl, some, none, List, [], ◌∷◌, length, last?, arith, if◌then◌else◌,
}
use arxia.Prelude.Ord.{eqb, eqb_iff, str_ord, nat_ord, pair_ord}
use arxia.Prelude.Elem.{elem, IsNodup}
use arxia.Prelude.Map.{lookup, contains_key}
use arxia.Prelude.Result.{ok, err}
use arxia.Core.{ArxiaError, double_spend}
use arxia.Lattice.Tests.{host, genesis}
use arxia.Gossip.NonceRegistry.{NonceKey, NonceEntry, NonceRegistry}
use arxia.Gossip.Node.{GossipNode, with_capacity, add_block, block_key}
use arxia.Gossip.Node.Invariant.{IsTracked, IsKeys}
use arxia.Gossip.Node.Preserve.{with_capacity-IsValid}
use arxia.Gossip.Node.Calls.{Call, add_block_call, merge_call, run, run_bounds}
use arxia.Gossip.Node.Outcomes.{is_due, add_block_cases}

-- The ascending order of a registry, and a registry out of order cut to nothing.
keys : NonceRegistry → List NonceKey
keys [] = []
keys ((k, h) ∷ m) = let rest = keys m in if elem k rest then rest else k ∷ rest

elem-keys : (k : NonceKey) (m : NonceRegistry) → elem k (keys m) ≡ contains_key k m
unfolding keys lookup
elem-keys k [] = refl
elem-keys k ((j, h) ∷ m) = ground (arith, elem-keys k m, eqb_iff k j)

IsNodup-keys : (m : NonceRegistry) → IsNodup (keys m)
unfolding keys
IsNodup-keys [] = tt
IsNodup-keys ((j, h) ∷ m) = ground (arith, IsNodup-keys m)

keys-IsKeys : IsKeys keys
keys-IsKeys = record { elem_iter = elem-keys; IsNodup_iter = IsNodup-keys }

abbrev calls : List Call
calls =
    add_block_call genesis.block
    ∷ merge_call ((((1 ∷ []), 1), (7 ∷ [])) ∷ (((1 ∷ []), 2), (8 ∷ [])) ∷ [])
    ∷ []

run_bounds_example :
    (length (run host (λ i. keys) 0 (with_capacity [] 0 1) calls).known_blocks ≤ 1)
    × (length (run host (λ i. keys) 0 (with_capacity [] 0 1) calls).nonce_registry ≤ 1)
    × IsTracked
        (run host (λ i. keys) 0 (with_capacity [] 0 1) calls).nonce_registry_order
        (run host (λ i. keys) 0 (with_capacity [] 0 1) calls).nonce_registry
run_bounds_example = run_bounds host (λ i. keys) [] 0 1 calls (λ i. keys-IsKeys)

abbrev node : GossipNode
node = with_capacity [] 4 4

add_block_cases_example :
    ((e : ArxiaError)
      → block_key host genesis.block ≡ err e
      → add_block host node genesis.block ≡ (err e, node))
    × ((key : NonceKey) (hash : NonceEntry)
        → block_key host genesis.block ≡ ok (key, hash)
        → (lookup key node.nonce_registry ≡ some hash
            → add_block host node genesis.block ≡ (ok tt, node))
          × ((other : NonceEntry)
              → lookup key node.nonce_registry ≡ some other
              → other ≢ hash
              → add_block host node genesis.block ≡ (err (double_spend genesis.block.nonce), node))
          × (lookup key node.nonce_registry ≡ none
              → ((add_block host node genesis.block).0 ≡ ok tt)
                × (last? (add_block host node genesis.block).1.known_blocks ≡ some genesis.block)
                × ((k : NonceKey)
                    → lookup k (add_block host node genesis.block).1.nonce_registry ≡ (
                        if eqb k key
                        then some hash
                        else if is_due k node
                        then none
                        else lookup k node.nonce_registry))))
add_block_cases_example = add_block_cases host node genesis.block (with_capacity-IsValid [] 4 4)
