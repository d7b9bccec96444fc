-- ===== src/Crdt/Reconciliation/Groups.antt =====
-- The groups that `reconcile_partitions` and `detect_double_spend` make, by what they hold.
use mathlib.Core.List.{append_assoc, append-nil}
use arxia.Prelude.{
  ◌≡◌, refl, sym, ap, ◌∙◌, Option, none, some, List, [], ◌∷◌, ◌++◌, arith, if◌then◌else◌,
}
use arxia.Prelude.Ord.{eqb, eqb_iff, str_ord, nat_ord, pair_ord}
use arxia.Prelude.Map.{Map, lookup, insert, IsSorted}
use arxia.Prelude.Map.Laws.{lookup-insert, insert-IsSorted}
use arxia.Lattice.Block.{Block}
use arxia.Crdt.Reconciliation.{Key, key_of, Group, push, group}

-- The blocks for a place of a chain, in their order.
abbrev pub with_key : Key → List Block → List Block
with_key k [] = []
with_key k (b ∷ bs) = if eqb k (key_of b) then b ∷ with_key k bs else with_key k bs

-- The blocks of a group that may be there.
abbrev pub blocks_of : Option Group → List Block
blocks_of none = []
blocks_of (some g) = g.0 ∷ g.1

blocks_of-push :
    (o : Option Group) (b : Block) → blocks_of (some (push o b)) ≡ blocks_of o ++ (b ∷ [])
blocks_of-push none b = refl
blocks_of-push (some g) b = refl

pub blocks_of-group :
    (k : Key) (m : Map Key Group) (bs : List Block)
    → blocks_of (lookup k (group m bs)) ≡ blocks_of (lookup k m) ++ with_key k bs
unfolding group
blocks_of-group k m [] = sym (append-nil (blocks_of (lookup k m)))
blocks_of-group k m (b ∷ bs) =
    blocks_of-group k (insert (key_of b) (push (lookup (key_of b) m) b) m) bs
    ∙ ground (
      arith,
      lookup-insert k (key_of b) (push (lookup (key_of b) m) b) m,
      eqb_iff k (key_of b),
      ap (λ i. lookup i m),
      blocks_of-push (lookup (key_of b) m) b,
      append_assoc (blocks_of (lookup k m)) (b ∷ []) (with_key k bs),
    )

pub group-IsSorted : (m : Map Key Group) (bs : List Block) → IsSorted m → IsSorted (group m bs)
unfolding group
group-IsSorted m [] s = s
group-IsSorted m (b ∷ bs) s =
    group-IsSorted (insert (key_of b) (push (lookup (key_of b) m) b) m) bs
      (insert-IsSorted (key_of b) (push (lookup (key_of b) m) b) m s)
