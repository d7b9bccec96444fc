-- ===== src/Gossip/Node/Invariant.antt =====
-- The bounds of the stores, and the order of eviction as the list of the keys that are there.
use arxia.Prelude.{◌≤◌, ◌<◌, ◌≡◌, ◌&&◌, not, refl, true, false, List, [], ◌∷◌, ◌++◌, length, arith}
use arxia.Prelude.Ord.{eqb_iff, eqb_refl, str_ord, nat_ord, pair_ord}
use arxia.Prelude.Elem.{elem, IsNodup, elem-append, IsNodup-append}
use arxia.Prelude.Map.{lookup, insert, remove, contains_key, IsSorted}
use arxia.Prelude.Map.Laws.{
  lookup-insert, insert-IsSorted, remove-IsSorted, lookup-remove_ne, lookup-remove_self,
}
use arxia.Gossip.NonceRegistry.{NonceKey, NonceEntry, NonceRegistry, merge_nonce_registries}
use arxia.Gossip.NonceRegistry.Merge.{merge-IsSorted, contains-merge}
use arxia.Gossip.Node.{GossipNode, evict_from, fresh}

-- The order lists the keys of the registry, each once.
pub record IsTracked (order : List NonceKey) (registry : NonceRegistry) : Type 0 where
  pub sorted : IsSorted registry
  pub tracked : (k : NonceKey) → elem k order ≡ contains_key k registry
  pub nodup : IsNodup order

pub record IsValid (n : GossipNode) : Type 0 where
  pub keys : IsTracked n.nonce_registry_order n.nonce_registry
  pub registry_within : length n.nonce_registry ≤ n.nonce_registry_capacity
  pub blocks_within : length n.known_blocks ≤ n.known_blocks_capacity
  pub registry_positive : 0 < n.nonce_registry_capacity
  pub blocks_positive : 0 < n.known_blocks_capacity

-- What `NonceRegistry::keys` documents: it yields the keys, each once.
pub record IsKeys (iter : NonceRegistry → List NonceKey) : Type 0 where
  pub elem_iter : (k : NonceKey) (m : NonceRegistry) → elem k (iter m) ≡ contains_key k m
  pub IsNodup_iter : (m : NonceRegistry) → IsNodup (iter m)

-- The oldest key is there, so one round is enough.
pub evict_from_lem :
    (oldest : NonceKey) (order : List NonceKey) (registry : NonceRegistry)
    → IsTracked (oldest ∷ order) registry
    → evict_from (oldest ∷ order) registry ≡ (true, order, remove oldest registry)
unfolding evict_from
evict_from_lem oldest order registry t = ground (arith, t.tracked oldest, eqb_refl oldest)

pub IsTracked-evict :
    (oldest : NonceKey) (order : List NonceKey) (registry : NonceRegistry)
    → IsTracked (oldest ∷ order) registry
    → IsTracked order (remove oldest registry)
IsTracked-evict oldest order registry t = record {
  sorted = remove-IsSorted oldest registry t.sorted;
  tracked = λ k. ground (
    arith,
    t.tracked k,
    t.nodup,
    eqb_iff k oldest,
    lookup-remove_self oldest registry t.sorted,
    lookup-remove_ne k oldest registry,
  );
  nodup = t.nodup.1;
}

-- A registry with an entry has a key in its order.
pub order_empty : (registry : NonceRegistry) → IsTracked [] registry → registry ≡ []
unfolding lookup
order_empty [] t = refl
order_empty ((k, h) ∷ registry) t = absurd (ground (arith, t.tracked k, eqb_refl k))

pub IsTracked-insert :
    (key : NonceKey) (hash : NonceEntry) (order : List NonceKey) (registry : NonceRegistry)
    → IsTracked order registry
    → contains_key key registry ≡ false
    → IsTracked (order ++ (key ∷ [])) (insert key hash registry)
IsTracked-insert key hash order registry t new = record {
  sorted = insert-IsSorted key hash registry t.sorted;
  tracked = λ k.
      ground
        (arith, t.tracked k, elem-append k order (key ∷ []), lookup-insert k key hash registry);
  nodup =
      IsNodup-append order (key ∷ []) t.nodup (refl, tt)
        (λ k e. ground (arith, e, t.tracked k, new, eqb_iff k key));
}

elem-fresh :
    (k : NonceKey) (pre : NonceRegistry) (keys : List NonceKey)
    → elem k (fresh pre keys) ≡ (elem k keys && not (contains_key k pre))
unfolding fresh
elem-fresh k pre [] = refl
elem-fresh k pre (j ∷ keys) = ground (arith, elem-fresh k pre keys, eqb_iff k j)

IsNodup-fresh :
    (pre : NonceRegistry) (keys : List NonceKey) → IsNodup keys → IsNodup (fresh pre keys)
unfolding fresh
IsNodup-fresh pre [] h = tt
IsNodup-fresh pre (j ∷ keys) h = ground (arith, IsNodup-fresh pre keys, elem-fresh j pre keys, h)

pub IsTracked-merge :
    (iter : NonceRegistry → List NonceKey) (order : List NonceKey) (local remote : NonceRegistry)
    → IsKeys iter
    → IsTracked order local
    → IsTracked
        (order ++ fresh local (iter (merge_nonce_registries local remote).0))
        (merge_nonce_registries local remote).0
IsTracked-merge iter order local remote laws t =
    let merged = (merge_nonce_registries local remote).0 in
    record {
      sorted = merge-IsSorted local remote t.sorted;
      tracked = λ k. ground (
        arith,
        t.tracked k,
        elem-append k order (fresh local (iter merged)),
        elem-fresh k local (iter merged),
        laws.elem_iter k merged,
        contains-merge k local remote,
      );
      nodup =
          IsNodup-append order (fresh local (iter merged)) t.nodup
            (IsNodup-fresh local (iter merged) (laws.IsNodup_iter merged))
            (λ k e. ground (arith, e, t.tracked k, elem-fresh k local (iter merged)));
    }
