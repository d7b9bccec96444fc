-- ===== src/Gossip/Node/Preserve.antt =====
-- Every operation of a node keeps the bounds and the order of eviction.
use arxia.Prelude.{
  ℕ, suc, ◌-◌, ◌<◌, ◌≡◌, refl, false, Option, none, some, List, [], ◌∷◌, ◌++◌, length,
  length-append, drop, arith,
}
use arxia.Prelude.Ord.{Str, eqb_iff, str_ord, nat_ord, pair_ord}
use arxia.Prelude.Map.{lookup, remove, contains_key, IsSorted}
use arxia.Prelude.Map.Laws.{lookup-remove_self, lookup-remove_ne}
use arxia.Prelude.Map.Size.{length-insert, length-remove}
use arxia.Prelude.Result.{Result, ok, err, panic}
use arxia.Core.{ArxiaError}
use arxia.Lattice.Block.{Block}
use arxia.Gossip.NonceRegistry.{NonceKey, NonceEntry, NonceRegistry, merge_nonce_registries}
use arxia.Gossip.Node.{
  GossipNode, with_capacity, make_room, track, remember, fresh, merge_registry, admit_block,
  accept_block,
}
use arxia.Gossip.Node.Invariant.{
  IsTracked, IsValid, IsKeys, IsTracked-evict, IsTracked-insert, IsTracked-merge,
}
use arxia.Gossip.Node.Eviction.{
  evicted, shrink-IsKept, shrink_lem, make_room_lem, had_room, dropped,
}

pub with_capacity-IsValid : (id : Str) (a b : ℕ) → IsValid (with_capacity id a b)
unfolding with_capacity lookup
with_capacity-IsValid id a b = record {
  keys = record { sorted = tt; tracked = λ k. refl; nodup = tt };
  registry_within = ground arith;
  blocks_within = ground arith;
  registry_positive = ground arith;
  blocks_positive = ground arith;
}

-- An entry of a new key, in a registry with room for it.
track-IsValid :
    (key : NonceKey) (hash : NonceEntry) (n : GossipNode)
    → IsValid n
    → length n.nonce_registry < n.nonce_registry_capacity
    → contains_key key n.nonce_registry ≡ false
    → IsValid (track key hash n)
unfolding track
track-IsValid key hash n v room new = record {
  keys = IsTracked-insert key hash n.nonce_registry_order n.nonce_registry v.keys new;
  registry_within =
      ground (arith, length-insert key hash n.nonce_registry v.keys.sorted, new, room);
  blocks_within = v.blocks_within;
  registry_positive = v.registry_positive;
  blocks_positive = v.blocks_positive;
}

evicted-IsValid :
    (oldest : NonceKey) (order : List NonceKey) (n : GossipNode)
    → IsValid n
    → n.nonce_registry_order ≡ oldest ∷ order
    → IsValid (evicted oldest order n)
      × (suc (length (evicted oldest order n).nonce_registry) ≡ length n.nonce_registry)
evicted-IsValid oldest order n v e =
    let t : IsTracked (oldest ∷ order) n.nonce_registry = rw e at (v.keys) in
    let size =
      length-remove oldest n.nonce_registry
        (ground (arith, t.tracked oldest, eqb_iff oldest oldest)) in
    (
      record {
        keys = IsTracked-evict oldest order n.nonce_registry t;
        registry_within = omega (arith, size, v.registry_within);
        blocks_within = v.blocks_within;
        registry_positive = v.registry_positive;
        blocks_positive = v.blocks_positive;
      },
      size,
    )

length-drop_one : (bs : List Block) → length (drop 1 bs) ≡ length bs - 1
length-drop_one [] = omega arith
length-drop_one (b ∷ bs) = omega arith

remember-IsValid : (b : Block) (n : GossipNode) → IsValid n → IsValid (remember b n)
unfolding remember
remember-IsValid b n v = ground (
  arith,
  length-append n.known_blocks (b ∷ []),
  length-append (drop 1 n.known_blocks) (b ∷ []),
  length-drop_one n.known_blocks,
)

contains-remove :
    (k oldest : NonceKey) (m : NonceRegistry)
    → IsSorted m
    → contains_key k m ≡ false
    → contains_key k (remove oldest m) ≡ false
contains-remove k oldest m s h =
    ground (arith, h, lookup-remove_self oldest m s, lookup-remove_ne k oldest m, eqb_iff k oldest)

admit-IsValid :
    (b : Block) (key : NonceKey) (hash : NonceEntry) (n : GossipNode)
    → IsValid n
    → contains_key key n.nonce_registry ≡ false
    → IsValid (remember b (track key hash (make_room n)))
admit-IsValid b key hash n v new = elim (make_room_lem n v) [
  | had_room room e ↦
      remember-IsValid b (track key hash (make_room n)) (rw e (track-IsValid key hash n v room new))
  | dropped oldest order o full e ↦
      let (w, size) = evicted-IsValid oldest order n v o in
      remember-IsValid b (track key hash (make_room n)) (
        rw e (
          track-IsValid key hash (evicted oldest order n) w (omega (arith, size, full))
            (contains-remove key oldest n.nonce_registry v.keys.sorted new)))
]

admit_block-IsValid :
    (b : Block) (key : NonceKey) (hash : NonceEntry) (n : GossipNode) (o : Option NonceEntry)
    → IsValid n
    → lookup key n.nonce_registry ≡ o
    → IsValid (admit_block b key hash n o).1
unfolding admit_block
admit_block-IsValid b key hash n (some existing) v e = ground (arith, v)
admit_block-IsValid b key hash n none v e = admit-IsValid b key hash n v (ground (arith, e))

pub accept_block-IsValid :
    (n : GossipNode) (b : Block) (r : Result ArxiaError (NonceKey × NonceEntry))
    → IsValid n
    → IsValid (accept_block n b r).1
unfolding accept_block
accept_block-IsValid n b (ok (key, hash)) v =
    admit_block-IsValid b key hash n (lookup key n.nonce_registry) v refl
accept_block-IsValid n b (err e) v = v
accept_block-IsValid n b panic v = v

pub merge_registry-IsValid :
    (iter : NonceRegistry → List NonceKey) (n : GossipNode) (remote : NonceRegistry)
    → IsKeys iter
    → IsValid n
    → IsValid (merge_registry iter n remote).1
unfolding merge_registry
merge_registry-IsValid iter n remote laws v =
    let merged = merge_nonce_registries n.nonce_registry remote in
    let order = n.nonce_registry_order ++ fresh n.nonce_registry (iter merged.0) in
    let n' = record n {
      nonce_registry = merged.0;
      pending_conflicts = n.pending_conflicts ++ merged.1;
      nonce_registry_order = order;
    } in
    let t = IsTracked-merge iter n.nonce_registry_order n.nonce_registry remote laws v.keys in
    let k = shrink-IsKept (length order) n' in
    let s = shrink_lem (length order) order n' refl (omega arith) t in
    record {
      keys = s.0;
      registry_within = omega (arith, s.1, k.registry_capacity);
      blocks_within = ground (arith, k.blocks, k.blocks_capacity, v.blocks_within);
      registry_positive = omega (arith, k.registry_capacity, v.registry_positive);
      blocks_positive = omega (arith, k.blocks_capacity, v.blocks_positive);
    }
