-- ===== src/Storage.antt =====
-- crates/arxia-storage/src/lib.rs: `MemoryStorage`, its transactions, and the checksummed values.
-- `ConcurrentMemoryStorage` is the same map behind a lock.
pub mod Transactions
pub mod Checksums
mod Tests
use arxia.Prelude.{
  Bool, true, false, Option, none, some, List, [], ◌∷◌, ◌++◌, length, take, drop, ltb,
  if◌then◌else◌,
}
use arxia.Prelude.Ord.{str_ord, eqb}
use arxia.Prelude.Words.{Bytes}
use arxia.Prelude.Map.{Map, lookup, insert, remove, contains_key}
use arxia.Prelude.Result.{Result, ok, err, ◌>>=◌, ◌>>◌, ensure}
use arxia.Crypto.{Primitives, checksum_too_short, checksum_mismatch}
use arxia.Core.{ArxiaError, key_error}

abbrev pub MemoryStorage : Type 0
MemoryStorage = Map Bytes Bytes

-- `StorageBackend for MemoryStorage`
abbrev pub put : Bytes → Bytes → MemoryStorage → Result ArxiaError MemoryStorage
put key value' data' = ok (insert key value' data')

abbrev pub get : Bytes → MemoryStorage → Result ArxiaError (Option Bytes)
get key data' = ok (lookup key data')

-- Whether the key was there, and the storage without it.
abbrev pub delete : Bytes → MemoryStorage → Result ArxiaError (Bool × MemoryStorage)
delete key data' = ok (contains_key key data', remove key data')

abbrev pub contains : Bytes → MemoryStorage → Result ArxiaError Bool
contains key data' = ok (contains_key key data')

pub data StagedOp : Type 0 where
  put_op : Bytes → StagedOp
  delete_op : StagedOp

pub record MemoryTransaction : Type 0 where
  pub store : MemoryStorage
  pub staged : Map Bytes StagedOp

pub begin_transaction : MemoryStorage → MemoryTransaction
begin_transaction store = record { store = store; staged = [] }

abbrev staged_get :
    Option StagedOp → Result ArxiaError (Option Bytes) → Result ArxiaError (Option Bytes)
staged_get (some (put_op v)) stored = ok (some v)
staged_get (some delete_op) stored = ok none
staged_get none stored = stored

abbrev staged_contains : Option StagedOp → Result ArxiaError Bool → Result ArxiaError Bool
staged_contains (some (put_op v)) stored = ok true
staged_contains (some delete_op) stored = ok false
staged_contains none stored = stored

pub txn_put : Bytes → Bytes → MemoryTransaction → Result ArxiaError MemoryTransaction
txn_put key value' t = ok (record t { staged = insert key (put_op value') t.staged })

pub txn_get : Bytes → MemoryTransaction → Result ArxiaError (Option Bytes)
txn_get key t = staged_get (lookup key t.staged) (get key t.store)

pub txn_contains : Bytes → MemoryTransaction → Result ArxiaError Bool
txn_contains key t = staged_contains (lookup key t.staged) (contains key t.store)

pub txn_delete : Bytes → MemoryTransaction → Result ArxiaError (Bool × MemoryTransaction)
txn_delete key t = do
  exists_in_view ← txn_contains key t
  ok (exists_in_view, record t { staged = insert key delete_op t.staged })

-- The loop of `commit`. The order of the drained map does not matter, its keys being distinct.
pub drain : Map Bytes StagedOp → MemoryStorage → MemoryStorage
drain [] data' = data'
drain ((key, put_op value') ∷ staged) data' = drain staged (insert key value' data')
drain ((key, delete_op) ∷ staged) data' = drain staged (remove key data')

pub commit : MemoryTransaction → Result ArxiaError MemoryStorage
commit t = ok (drain t.staged t.store)

-- `rollback` drops the staged operations.
abbrev rollback : MemoryTransaction → MemoryStorage
rollback t = t.store

unfoldable put_all : List (Bytes × Bytes) → MemoryTransaction → Result ArxiaError MemoryTransaction
put_all [] t = ok t
put_all ((k, v) ∷ items) t = do t' ← txn_put k v t; put_all items t'

unfoldable atomic_put_batch : List (Bytes × Bytes) → MemoryStorage → Result ArxiaError MemoryStorage
atomic_put_batch items s = do t ← put_all items (begin_transaction s); commit t

module _ (c : Primitives) where
  pub wrap_with_checksum : Bytes → Bytes
  wrap_with_checksum value' = c.blake3 value' ++ value'

  pub unwrap_with_checksum : Bytes → Result ArxiaError Bytes
  unwrap_with_checksum combined = do
    if ltb (length combined) 32 then err (key_error checksum_too_short) else ok tt
    ensure (eqb (take 32 combined) (c.blake3 (drop 32 combined))) (key_error checksum_mismatch)
    ok (drop 32 combined)
