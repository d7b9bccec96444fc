-- ===== src/Gossip/Node/Outcomes.antt =====
-- What `add_block` of a node does on every branch.
use arxia.Prelude.{
  ◌≡◌, ◌≢◌, ◌&&◌, refl, Bool, false, none, some, List, [], ◌∷◌, length, last?, last?-append, drop,
  leb, arith, if◌then◌else◌,
}
use arxia.Prelude.Ord.{eqb, eqb_iff, str_ord, nat_ord, pair_ord}
use arxia.Prelude.Map.{lookup}
use arxia.Prelude.Map.Laws.{lookup-insert, lookup-remove_ne, lookup-remove_self}
use arxia.Prelude.Result.{ok, err}
use arxia.Core.{ArxiaError, double_spend}
use arxia.Lattice.Block.{Host, Block}
use arxia.Gossip.NonceRegistry.{NonceKey, NonceEntry}
use arxia.Gossip.Node.{
  GossipNode, make_room, track, remember, admit_block, block_key, accept_block, add_block,
}
use arxia.Gossip.Node.Invariant.{IsValid}
use arxia.Gossip.Node.Eviction.{make_room_lem, had_room, dropped}

abbrev is_head : NonceKey → List NonceKey → Bool
is_head k [] = false
is_head k (oldest ∷ order) = eqb k oldest

-- The registry is full, and the key is the oldest in it.
abbrev pub is_due : NonceKey → GossipNode → Bool
is_due k n =
    leb n.nonce_registry_capacity (length n.nonce_registry) && is_head k n.nonce_registry_order

lookup-make_room :
    (k : NonceKey) (n : GossipNode)
    → IsValid n
    → lookup k (make_room n).nonce_registry
      ≡ (if is_due k n then none else lookup k n.nonce_registry)
lookup-make_room k n v = elim (make_room_lem n v) [
  | had_room room e ↦ rw e (ground (arith, room))
  | dropped oldest order o full e ↦ rw e (
      ground (
        arith,
        o,
        full,
        eqb_iff k oldest,
        lookup-remove_self oldest n.nonce_registry v.keys.sorted,
        lookup-remove_ne k oldest n.nonce_registry,
      ))
]

remember_lem :
    (b : Block) (n : GossipNode)
    → ((remember b n).nonce_registry ≡ n.nonce_registry)
      × (last? (remember b n).known_blocks ≡ some b)
unfolding remember
remember_lem b n =
    ground (arith, last?-append n.known_blocks b, last?-append (drop 1 n.known_blocks) b)

module _ (h : Host) (n : GossipNode) (b : Block) where
  -- A block that fails a check is refused with the error of the check, and the node is as it was. A
  -- block that passes them is known, where the registry has its hash under its account and nonce, and
  -- nothing changes; it is refused as a double spend, and nothing changes, where the registry has
  -- another hash; and where the registry has none it is accepted: its hash is entered, it is the last
  -- of the known blocks, and of the other entries at most the oldest is dropped, if the registry is full.
  pub add_block_cases :
      IsValid n
      → ((e : ArxiaError) → block_key h b ≡ err e → add_block h n b ≡ (err e, n))
        × ((key : NonceKey) (hash : NonceEntry)
            → block_key h b ≡ ok (key, hash)
            → (lookup key n.nonce_registry ≡ some hash → add_block h n b ≡ (ok tt, n))
              × ((other : NonceEntry)
                  → lookup key n.nonce_registry ≡ some other
                  → other ≢ hash
                  → add_block h n b ≡ (err (double_spend b.nonce), n))
              × (lookup key n.nonce_registry ≡ none
                  → ((add_block h n b).0 ≡ ok tt)
                    × (last? (add_block h n b).1.known_blocks ≡ some b)
                    × ((k : NonceKey)
                        → lookup k (add_block h n b).1.nonce_registry ≡ (
                            if eqb k key
                            then some hash
                            else if is_due k n
                            then none
                            else lookup k n.nonce_registry))))
  unfolding add_block accept_block admit_block track
  add_block_cases v = (
    λ e failed. rw failed refl,
    λ key hash passed. rw passed (
      λ known. ground (arith, known, eqb_iff hash hash),
      λ other found ne. ground (arith, found, ne, eqb_iff other hash),
      λ new.
          let r = remember_lem b (track key hash (make_room n)) in
          (
            ground (arith, new),
            ground (arith, new, r),
            λ k. ground (
              arith,
              new,
              r,
              lookup-insert k key hash (make_room n).nonce_registry,
              lookup-make_room k n v,
            ),
          ),
    ),
  )
