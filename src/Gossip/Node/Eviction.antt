-- ===== src/Gossip/Node/Eviction.antt =====
-- The eviction of the oldest entries of the registry.
use arxia.Prelude.{
  ℕ, zero, suc, ◌≤◌, ◌<◌, ◌≡◌, refl, true, List, [], ◌∷◌, length, leb, arith, Bool-cases, inl, inr,
}
use arxia.Prelude.Ord.{str_ord, nat_ord, pair_ord}
use arxia.Prelude.Map.{remove}
use arxia.Prelude.Words.{saturating_add}
use arxia.Gossip.NonceRegistry.{NonceKey}
use arxia.Gossip.Node.{GossipNode, evict_oldest_nonce_entry, make_room, shrink}
use arxia.Gossip.Node.Invariant.{IsTracked, IsValid, evict_from_lem, IsTracked-evict, order_empty}

abbrev pub evicted : NonceKey → List NonceKey → GossipNode → GossipNode
evicted oldest order n = record n {
  nonce_registry_order = order;
  nonce_registry = remove oldest n.nonce_registry;
  nonce_registry_dropped = saturating_add n.nonce_registry_dropped 1;
}

evict_lem :
    (oldest : NonceKey) (order : List NonceKey) (n : GossipNode)
    → n.nonce_registry_order ≡ oldest ∷ order
    → IsTracked (oldest ∷ order) n.nonce_registry
    → evict_oldest_nonce_entry n ≡ (true, evicted oldest order n)
unfolding evict_oldest_nonce_entry
evict_lem oldest order n e t = ground (arith, e, evict_from_lem oldest order n.nonce_registry t)

-- What the registry's upkeep leaves alone.
pub record IsKept (n n' : GossipNode) : Type 0 where
  pub blocks : n'.known_blocks ≡ n.known_blocks
  pub blocks_capacity : n'.known_blocks_capacity ≡ n.known_blocks_capacity
  pub registry_capacity : n'.nonce_registry_capacity ≡ n.nonce_registry_capacity

pub evict-IsKept : (n : GossipNode) → IsKept n (evict_oldest_nonce_entry n).1
unfolding evict_oldest_nonce_entry
evict-IsKept n = record { blocks = refl; blocks_capacity = refl; registry_capacity = refl }

pub shrink-IsKept : (fuel : ℕ) (n : GossipNode) → IsKept n (shrink fuel n)
unfolding shrink
shrink-IsKept zero n = record { blocks = refl; blocks_capacity = refl; registry_capacity = refl }
shrink-IsKept (suc fuel) n =
    ground (arith, evict-IsKept n, shrink-IsKept fuel (evict_oldest_nonce_entry n).1)

-- The loop ends with the registry within its capacity.
pub shrink_lem :
    (fuel : ℕ) (order : List NonceKey) (n : GossipNode)
    → n.nonce_registry_order ≡ order
    → length order ≤ fuel
    → IsTracked order n.nonce_registry
    → IsTracked (shrink fuel n).nonce_registry_order (shrink fuel n).nonce_registry
      × (length (shrink fuel n).nonce_registry ≤ n.nonce_registry_capacity)
unfolding shrink
shrink_lem zero [] n e le t = (rw e t, ground (arith, order_empty n.nonce_registry t))
shrink_lem (suc fuel) [] n e le t = ground (arith, order_empty n.nonce_registry t, e, t)
shrink_lem zero (oldest ∷ order) n e le t = absurd (omega arith)
shrink_lem (suc fuel) (oldest ∷ order) n e le t = ground (
  arith,
  e,
  evict_lem oldest order n e t,
  shrink_lem fuel order (evicted oldest order n) refl (omega arith)
      (IsTracked-evict oldest order n.nonce_registry t),
)

-- The registry was not full, or it was and its oldest entry goes.
pub data RoomMade (n : GossipNode) : Type 0 where
  had_room : length n.nonce_registry < n.nonce_registry_capacity → make_room n ≡ n → RoomMade n
  dropped :
      (oldest : NonceKey) (order : List NonceKey)
      → n.nonce_registry_order ≡ oldest ∷ order
      → length n.nonce_registry ≡ n.nonce_registry_capacity
      → make_room n ≡ evicted oldest order n
      → RoomMade n

full_room :
    (order : List NonceKey) (n : GossipNode)
    → IsValid n
    → leb n.nonce_registry_capacity (length n.nonce_registry) ≡ true
    → n.nonce_registry_order ≡ order
    → RoomMade n
unfolding make_room
full_room [] n v full e =
    let empty : n.nonce_registry ≡ [] = order_empty n.nonce_registry (rw e at (v.keys)) in
    absurd (ground (arith, full, empty, v.registry_positive))
full_room (oldest ∷ order) n v full e =
    dropped oldest order e (ground (arith, full, v.registry_within))
      (ground (arith, full, evict_lem oldest order n e (rw e at (v.keys))))

pub make_room_lem : (n : GossipNode) → IsValid n → RoomMade n
unfolding make_room
make_room_lem n v = elim (Bool-cases (leb n.nonce_registry_capacity (length n.nonce_registry))) [
  | inl full ↦ full_room n.nonce_registry_order n v full refl
  | inr room ↦ had_room (ground (arith, room)) (ground (arith, room))
]
