-- ===== src/Storage/Transactions.antt =====
-- A transaction that commits is the same operations on the storage itself.
use arxia.Prelude.{◌≡◌, refl, ap, ◌∙◌, Option, none, some, if◌then◌else◌, List, [], ◌∷◌, arith}
use arxia.Prelude.Ord.{str_ord, eqb, eqb_iff}
use arxia.Prelude.Words.{Bytes}
use arxia.Prelude.Map.{Map, lookup, insert, remove, IsSorted, contains_key}
use arxia.Prelude.Map.Laws.{
  lookup-insert, lookup-remove_ne, lookup-remove_self, insert-IsSorted, remove-IsSorted,
  lookup-After,
}
use arxia.Prelude.Map.Ext.{map_ext}
use arxia.Prelude.Result.{Result, ok, ◌>>=◌}
use arxia.Core.{ArxiaError}
use arxia.Storage.{
  MemoryStorage, StagedOp, put_op, delete_op, MemoryTransaction, begin_transaction, get, put,
  delete, txn_put, txn_get, txn_delete, drain, commit, txn_contains,
}

-- What a key reads after the staged operations.
abbrev after_staged : Option StagedOp → Option Bytes → Option Bytes
after_staged none stored = stored
after_staged (some (put_op v)) stored = some v
after_staged (some delete_op) stored = none

lookup-remove :
    (j k : Bytes) (m : MemoryStorage)
    → IsSorted m
    → lookup j (remove k m) ≡ (if eqb j k then none else lookup j m)
lookup-remove j k m s =
    ground (arith, lookup-remove_ne j k m, lookup-remove_self k m s, eqb_iff j k)

drain-IsSorted :
    (staged : Map Bytes StagedOp) (d : MemoryStorage) → IsSorted d → IsSorted (drain staged d)
unfolding drain
drain-IsSorted [] d s = s
drain-IsSorted ((k, put_op v) ∷ staged) d s =
    drain-IsSorted staged (insert k v d) (insert-IsSorted k v d s)
drain-IsSorted ((k, delete_op) ∷ staged) d s =
    drain-IsSorted staged (remove k d) (remove-IsSorted k d s)

lookup-drain :
    (j : Bytes) (staged : Map Bytes StagedOp) (d : MemoryStorage)
    → IsSorted staged
    → IsSorted d
    → lookup j (drain staged d) ≡ after_staged (lookup j staged) (lookup j d)
unfolding drain lookup
lookup-drain j [] d s t = refl
lookup-drain j ((k, put_op v) ∷ staged) d s t = ground (
  arith,
  lookup-drain j staged (insert k v d) s.1 (insert-IsSorted k v d t),
  lookup-insert j k v d,
  lookup-After k staged s.0,
  eqb_iff j k,
)
lookup-drain j ((k, delete_op) ∷ staged) d s t = ground (
  arith,
  lookup-drain j staged (remove k d) s.1 (remove-IsSorted k d t),
  lookup-remove j k d t,
  lookup-After k staged s.0,
  eqb_iff j k,
)

drain-put_op :
    (k v : Bytes) (staged : Map Bytes StagedOp) (d : MemoryStorage)
    → IsSorted staged
    → IsSorted d
    → drain (insert k (put_op v) staged) d ≡ insert k v (drain staged d)
drain-put_op k v staged d s t =
    map_ext (drain (insert k (put_op v) staged) d) (insert k v (drain staged d))
      (drain-IsSorted (insert k (put_op v) staged) d t)
      (insert-IsSorted k v (drain staged d) (drain-IsSorted staged d t))
      (λ j. ground (
        arith,
        lookup-drain j (insert k (put_op v) staged) d (insert-IsSorted k (put_op v) staged s) t,
        lookup-drain j staged d s t,
        lookup-insert j k v (drain staged d),
        lookup-insert j k (put_op v) staged,
      ))

drain-delete_op :
    (k : Bytes) (staged : Map Bytes StagedOp) (d : MemoryStorage)
    → IsSorted staged
    → IsSorted d
    → drain (insert k delete_op staged) d ≡ remove k (drain staged d)
drain-delete_op k staged d s t =
    map_ext (drain (insert k delete_op staged) d) (remove k (drain staged d))
      (drain-IsSorted (insert k delete_op staged) d t)
      (remove-IsSorted k (drain staged d) (drain-IsSorted staged d t))
      (λ j. ground (
        arith,
        lookup-drain j (insert k delete_op staged) d (insert-IsSorted k delete_op staged s) t,
        lookup-drain j staged d s t,
        lookup-remove j k (drain staged d) (drain-IsSorted staged d t),
        lookup-insert j k delete_op staged,
      ))

-- Both maps of a transaction are in order of their keys.
abbrev pub IsValid : MemoryTransaction → Type 0
IsValid t = IsSorted t.staged × IsSorted t.store

-- A transaction reads what its commit would leave, where its maps are in order of their keys.
txn_get-commit :
    (key : Bytes) (t : MemoryTransaction) → IsValid t → txn_get key t ≡ (commit t >>= get key)
unfolding txn_get commit
txn_get-commit key t v = ground (arith, lookup-drain key t.staged t.store v.0 v.1)

txn_contains_lem :
    (key : Bytes) (t : MemoryTransaction)
    → IsValid t
    → txn_contains key t ≡ ok (contains_key key (drain t.staged t.store))
unfolding txn_contains
txn_contains_lem key t v = ground (arith, lookup-drain key t.staged t.store v.0 v.1)

txn_delete_lem :
    (key : Bytes) (t : MemoryTransaction)
    → IsValid t
    → txn_delete key t
      ≡ ok (
        contains_key key (drain t.staged t.store),
        record t { staged = insert key delete_op t.staged },
      )
unfolding txn_delete
txn_delete_lem key t v = rw (txn_contains_lem key t v)

pub data Op : Type 0 where
  put_key : Bytes → Bytes → Op
  delete_key : Bytes → Op

-- The operations in a transaction.
pub stage : List Op → MemoryTransaction → Result ArxiaError MemoryTransaction
stage [] t = ok t
stage (put_key k v ∷ ops) t = txn_put k v t >>= stage ops
stage (delete_key k ∷ ops) t = txn_delete k t >>= λ r. stage ops r.1

-- The operations on the storage.
pub apply : List Op → MemoryStorage → Result ArxiaError MemoryStorage
apply [] s = ok s
apply (put_key k v ∷ ops) s = put k v s >>= apply ops
apply (delete_key k ∷ ops) s = delete k s >>= λ r. apply ops r.1

stage-commit :
    (ops : List Op) (t : MemoryTransaction)
    → IsValid t
    → (stage ops t >>= commit) ≡ (commit t >>= apply ops)
unfolding stage apply commit txn_put
stage-commit [] t v = refl
stage-commit (put_key k x ∷ ops) t v =
    stage-commit ops (record t { staged = insert k (put_op x) t.staged })
      (insert-IsSorted k (put_op x) t.staged v.0, v.1)
    ∙ ap (apply ops) (drain-put_op k x t.staged t.store v.0 v.1)
stage-commit (delete_key k ∷ ops) t v = rw (txn_delete_lem k t v) (
    stage-commit ops (record t { staged = insert k delete_op t.staged })
      (insert-IsSorted k delete_op t.staged v.0, v.1)
    ∙ ap (apply ops) (drain-delete_op k t.staged t.store v.0 v.1))

-- Operations made in a transaction and committed give the storage that the same operations give
-- when they are made on it one by one, where it is in order of its keys.
pub commit-stage :
    (ops : List Op) (s : MemoryStorage)
    → IsSorted s
    → (stage ops (begin_transaction s) >>= commit) ≡ apply ops s
unfolding begin_transaction drain commit
commit-stage ops s v = stage-commit ops (begin_transaction s) (tt, v)
