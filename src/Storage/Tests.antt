-- ===== src/Storage/Tests.antt =====
-- A storage and a value at which the theorems on them are applied.
use arxia.Prelude.{◌≡◌, List, [], ◌∷◌}
use arxia.Prelude.Result.{◌>>=◌}
use arxia.Storage.{MemoryStorage, begin_transaction, commit}
use arxia.Storage.Transactions.{Op, put_key, delete_key, stage, apply, commit-stage}

abbrev stored : MemoryStorage
stored = ((1 ∷ []), (9 ∷ [])) ∷ []

abbrev ops : List Op
ops = put_key (2 ∷ []) (8 ∷ []) ∷ delete_key (1 ∷ []) ∷ put_key (1 ∷ []) (7 ∷ []) ∷ []

commit-stage_example : (stage ops (begin_transaction stored) >>= commit) ≡ apply ops stored
commit-stage_example = commit-stage ops stored (tt, tt)
