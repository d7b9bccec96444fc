-- ===== src/Gossip/NonceRegistry.antt =====
-- crates/arxia-gossip/src/nonce_registry.rs
pub mod Merge
pub mod Sync
use arxia.Prelude.{
  ℕ, ◌+◌, Bool, true, false, not, Option, none, some, List, [], ◌∷◌, ◌==◌, if◌then◌else◌,
}
use arxia.Prelude.Ord.{str_ord, eqb, nat_ord, pair_ord}
use arxia.Prelude.Words.{Bytes}
use arxia.Prelude.Map.{Map, lookup, insert, contains_key}

abbrev pub NonceKey : Type 0
NonceKey = Bytes × ℕ

abbrev pub NonceEntry : Type 0
NonceEntry = Bytes

abbrev pub NonceRegistry : Type 0
NonceRegistry = Map NonceKey NonceEntry

pub record NonceConflict : Type 0 where
  pub key : NonceKey
  pub local_hash : NonceEntry
  pub remote_hash : NonceEntry

pub data SyncResult : Type 0 where
  success : SyncResult
  mismatch : ℕ → SyncResult
  no_neighbors : SyncResult

-- The loop of `merge_nonce_registries`: the registry and the conflicts in the order found.
unfoldable pub merge_nonce_registries :
    NonceRegistry → NonceRegistry → NonceRegistry × List NonceConflict
merge_nonce_registries local [] = (local, [])
merge_nonce_registries local ((key, remote_hash) ∷ remote) = elim (lookup key local) [
  | none ↦ merge_nonce_registries (insert key remote_hash local) remote
  | some local_hash ↦
      let rest = merge_nonce_registries local remote in
      if eqb local_hash remote_hash then rest else (
        rest.0,
        record { key = key; local_hash = local_hash; remote_hash = remote_hash } ∷ rest.1,
      )
]

abbrev differs : NonceEntry → Option NonceEntry → Bool
differs candidate_hash none = false
differs candidate_hash (some h) = not (eqb h candidate_hash)

unfoldable has_conflict : NonceRegistry → Bytes → ℕ → NonceEntry → Bool
has_conflict registry account nonce candidate_hash =
    differs candidate_hash (lookup (account, nonce) registry)

abbrev pub same_entry : NonceEntry → Option NonceEntry → Bool
same_entry local_hash none = false
same_entry local_hash (some remote_hash) = eqb remote_hash local_hash

-- The first loop of `sync_nonces_before_l1`.
unfoldable pub count_local : NonceRegistry → NonceRegistry → ℕ
count_local [] remote = 0
count_local ((key, local_hash) ∷ local) remote =
    (if same_entry local_hash (lookup key remote) then 0 else 1) + count_local local remote

-- The second loop.
unfoldable pub count_remote : NonceRegistry → NonceRegistry → ℕ
count_remote local [] = 0
count_remote local ((key, h) ∷ remote) =
    (if contains_key key local then 0 else 1) + count_remote local remote

unfoldable pub sync_nonces_before_l1 : NonceRegistry → NonceRegistry → SyncResult
sync_nonces_before_l1 local [] = no_neighbors
sync_nonces_before_l1 local (entry ∷ rest) =
    let mismatches = count_local local (entry ∷ rest) + count_remote local (entry ∷ rest) in
    if mismatches == 0 then success else mismatch mismatches
