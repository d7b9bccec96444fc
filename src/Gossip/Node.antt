-- ===== src/Gossip/Node.antt =====
-- crates/arxia-gossip/src/node.rs: a node of the gossip network with its bounded stores. The argument
-- `iter` is the order in which `NonceRegistry::keys` yields the keys.
mod Invariant
mod Eviction
mod Preserve
mod Calls
mod Outcomes
mod Tests
use arxia.Prelude.{
  ℕ, zero, suc, Bool, true, false, Option, none, some, List, [], ◌∷◌, ◌++◌, length, drop, leb, ltb,
  max, ◌==◌, if◌then◌else◌,
}
use arxia.Prelude.Ord.{Str, eqb, str_ord, nat_ord, pair_ord}
use arxia.Prelude.Map.{Map, Set, lookup, insert, remove, contains_key}
use arxia.Prelude.Words.{Bytes, saturating_add}
use arxia.Prelude.Result.{Result, ok, err, panic, ◌>>=◌, ◌>>◌, ok_or, ensure}
use arxia.Core.{ArxiaError, signature_error, bad_hash_hex, hash_mismatch, key_error, double_spend}
use arxia.Crypto.{bad_hex, bad_length}
use arxia.Lattice.Block.{Host, Block, verify_block}
use arxia.Gossip.NonceRegistry.{
  NonceKey, NonceEntry, NonceRegistry, NonceConflict, SyncResult, merge_nonce_registries,
  sync_nonces_before_l1,
}

-- `MAX_KNOWN_BLOCKS` and `MAX_NONCE_REGISTRY_ENTRIES`
abbrev max_known_blocks : ℕ
max_known_blocks = 10_000

abbrev max_nonce_registry_entries : ℕ
max_nonce_registry_entries = 10_000

pub record GossipNode : Type 0 where
  pub node_id : Str
  pub known_blocks : List Block
  pub nonce_registry : NonceRegistry
  pub peers : Set Str
  pub pending_conflicts : List NonceConflict
  pub nonce_registry_order : List NonceKey
  known_blocks_dropped : ℕ
  pub nonce_registry_dropped : ℕ
  pub known_blocks_capacity : ℕ
  pub nonce_registry_capacity : ℕ

pub with_capacity : Str → ℕ → ℕ → GossipNode
with_capacity node_id known_blocks_capacity nonce_registry_capacity = record {
  node_id = node_id;
  known_blocks = [];
  nonce_registry = [];
  peers = [];
  pending_conflicts = [];
  nonce_registry_order = [];
  known_blocks_dropped = 0;
  nonce_registry_dropped = 0;
  known_blocks_capacity = max known_blocks_capacity 1;
  nonce_registry_capacity = max nonce_registry_capacity 1;
}

pub new : Str → GossipNode
new node_id = with_capacity node_id max_known_blocks max_nonce_registry_entries

-- The loop of `evict_oldest_nonce_entry` over the order: whether an entry was removed, and what is left
-- of the order and of the registry.
pub evict_from : List NonceKey → NonceRegistry → Bool × List NonceKey × NonceRegistry
evict_from [] registry = (false, [], registry)
evict_from (oldest ∷ order) registry =
    let stale = evict_from order registry in
    if contains_key oldest registry then (true, order, remove oldest registry) else stale

pub evict_oldest_nonce_entry : GossipNode → Bool × GossipNode
evict_oldest_nonce_entry n =
    let (removed, order, registry) = evict_from n.nonce_registry_order n.nonce_registry in
    (
      removed,
      record n {
        nonce_registry_order = order;
        nonce_registry = registry;
        nonce_registry_dropped =
            if removed then saturating_add n.nonce_registry_dropped 1 else n.nonce_registry_dropped;
      },
    )

-- An entry that is new, after the oldest was dropped if the registry is full.
pub make_room : GossipNode → GossipNode
make_room n =
    if leb n.nonce_registry_capacity (length n.nonce_registry)
    then (evict_oldest_nonce_entry n).1
    else n

pub track : NonceKey → NonceEntry → GossipNode → GossipNode
track key hash n = record n {
  nonce_registry = insert key hash n.nonce_registry;
  nonce_registry_order = n.nonce_registry_order ++ (key ∷ []);
}

-- The end of `add_block`: the block is appended, after the oldest was dropped if there are too many.
pub remember : Block → GossipNode → GossipNode
remember b n =
    if leb n.known_blocks_capacity (length n.known_blocks)
    then record n {
      known_blocks = drop 1 n.known_blocks ++ (b ∷ []);
      known_blocks_dropped = saturating_add n.known_blocks_dropped 1;
    }
    else record n { known_blocks = n.known_blocks ++ (b ∷ []) }

-- The checks of `add_block`, and the key and the hash that they read off the block.
abbrev pub block_key : Host → Block → Result ArxiaError (NonceKey × NonceEntry)
block_key h b = do
  verify_block h b
  hash_bytes ← ok_or (h.hex_decode b.hash) (signature_error bad_hash_hex)
  ensure (length hash_bytes == 32) hash_mismatch
  account_bytes ← ok_or (h.hex_decode b.account) (key_error bad_hex)
  ensure (length account_bytes == 32) (key_error bad_length)
  ok ((account_bytes, b.nonce), hash_bytes)

pub admit_block :
    Block
    → NonceKey
    → NonceEntry
    → GossipNode
    → Option NonceEntry
    → Result ArxiaError (Unit {0}) × GossipNode
admit_block b key hash n (some existing) =
    if eqb existing hash then (ok tt, n) else (err (double_spend b.nonce), n)
admit_block b key hash n none = (ok tt, remember b (track key hash (make_room n)))

-- The rest of `add_block`, after the checks.
pub accept_block :
    GossipNode
    → Block
    → Result ArxiaError (NonceKey × NonceEntry)
    → Result ArxiaError (Unit {0}) × GossipNode
accept_block n b (ok (key, hash)) = admit_block b key hash n (lookup key n.nonce_registry)
accept_block n b (err e) = (err e, n)
accept_block n b panic = (panic, n)

pub add_block : Host → GossipNode → Block → Result ArxiaError (Unit {0}) × GossipNode
add_block h n b = accept_block n b (block_key h b)

-- The keys that were not there before.
pub fresh : NonceRegistry → List NonceKey → List NonceKey
fresh pre [] = []
fresh pre (key ∷ keys) =
    let rest = fresh pre keys in if contains_key key pre then rest else key ∷ rest

-- The `while` loop of `merge_registry`: each round takes at least one key off the order.
pub shrink : ℕ → GossipNode → GossipNode
shrink zero n = n
shrink (suc fuel) n =
    let (removed, n') = evict_oldest_nonce_entry n in
    let again = shrink fuel n' in
    if ltb n.nonce_registry_capacity (length n.nonce_registry)
    then (if removed then again else n')
    else n

pub merge_registry :
    (NonceRegistry → List NonceKey) → GossipNode → NonceRegistry → List NonceConflict × GossipNode
merge_registry iter n remote =
    let (merged, conflicts) = merge_nonce_registries n.nonce_registry remote in
    let order = n.nonce_registry_order ++ fresh n.nonce_registry (iter merged) in
    (
      conflicts,
      shrink (length order) (record n {
        nonce_registry = merged;
        pending_conflicts = n.pending_conflicts ++ conflicts;
        nonce_registry_order = order;
      }),
    )

pub drain_pending_conflicts : GossipNode → List NonceConflict × GossipNode
drain_pending_conflicts n = (n.pending_conflicts, record n { pending_conflicts = [] })

unfoldable check_sync : GossipNode → NonceRegistry → SyncResult
check_sync n peer_registry = sync_nonces_before_l1 n.nonce_registry peer_registry

pub add_peer : GossipNode → Str → GossipNode
add_peer n peer_id = record n { peers = insert peer_id tt n.peers }
