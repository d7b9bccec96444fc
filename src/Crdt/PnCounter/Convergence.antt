-- ===== src/Crdt/PnCounter/Convergence.antt =====
-- Merging counters in any order and any number of times gives one result.
use arxia.Prelude.{◌≡◌}
use arxia.Prelude.Ord.{str_ord}
use arxia.Prelude.Map.{IsSorted}
use arxia.Crdt.PnCounter.{PnCounter, merge}
use arxia.Crdt.Join.Laws.{join_comm, join_assoc, join_idem}

-- Both halves are in order of their keys.
abbrev pub IsValid : PnCounter → Type 0
IsValid c = IsSorted c.p × IsSorted c.n

-- Where the halves are in order of their keys, merging counters is commutative, associative and
-- idempotent.
pub merge_converges :
    (a b c : PnCounter)
    → IsValid a
    → IsValid b
    → IsValid c
    → (merge a b ≡ merge b a) × (merge (merge a b) c ≡ merge a (merge b c)) × (merge a a ≡ a)
unfolding merge
merge_converges a b c s t u = (
  rw (join_comm a.p b.p s.0 t.0, join_comm a.n b.n s.1 t.1),
  rw (join_assoc a.p b.p c.p s.0 t.0 u.0, join_assoc a.n b.n c.n s.1 t.1 u.1),
  rw (join_idem a.p s.0, join_idem a.n s.1),
)
