-- ===== src/Consensus/Enumeration/Complete.antt =====
-- The conflicts that `detect_double_spend` reports are all there are.
use arxia.Prelude.{◌≡◌, refl, ap, ◌∙◌, List, [], ◌∷◌, All, arith, if◌then◌else◌}
use arxia.Prelude.Ord.{eqb, eqb_iff, str_ord, nat_ord, pair_ord}
use arxia.Prelude.Map.{Map, lookup, insert, IsSorted}
use arxia.Prelude.Map.Laws.{lookup-After}
use arxia.Lattice.Block.{Block}
use arxia.Crdt.Reconciliation.Groups.{with_key, blocks_of, blocks_of-group, group-IsSorted}
use arxia.Crdt.Reconciliation.{Key, key_of, Group, push, group}
use arxia.Consensus.Enumeration.{spends, detect_double_spend}

-- A list of at least two; else nothing.
abbrev pub at_least_two : List Block → List Block
at_least_two [] = []
at_least_two (x ∷ []) = []
at_least_two (x ∷ y ∷ ys) = x ∷ y ∷ ys

-- The blocks of the first reported conflict whose winner has the place, the winner first.
abbrev pub reported : Key → List (Block × List Block) → List Block
reported k [] = []
reported k ((x, losers) ∷ conflicts) = if eqb k (key_of x) then x ∷ losers else reported k conflicts

IsKeyed : Map Key Group → Type 0
IsKeyed m = All (λ p. key_of p.1.0 ≡ p.0) m

insert-IsKeyed :
    (k : Key) (g : Group) (m : Map Key Group) → key_of g.0 ≡ k → IsKeyed m → IsKeyed (insert k g m)
unfolding insert IsKeyed
insert-IsKeyed k g [] e h = (e, tt)
insert-IsKeyed k g ((j, f) ∷ m) e h = ground (arith, insert-IsKeyed k g m e h.1, e, h)

lookup-IsKeyed :
    (k : Key) (m : Map Key Group) (b : Block)
    → key_of b ≡ k
    → IsKeyed m
    → key_of (push (lookup k m) b).0 ≡ k
unfolding lookup IsKeyed
lookup-IsKeyed k [] b e h = e
lookup-IsKeyed k ((j, f) ∷ m) b e h = ground (arith, lookup-IsKeyed k m b e h.1, h.0, eqb_iff k j)

group-IsKeyed : (m : Map Key Group) (bs : List Block) → IsKeyed m → IsKeyed (group m bs)
unfolding group
group-IsKeyed m [] h = h
group-IsKeyed m (b ∷ bs) h = group-IsKeyed (insert (key_of b) (push (lookup (key_of b) m) b) m) bs (
    insert-IsKeyed (key_of b) (push (lookup (key_of b) m) b) m
      (lookup-IsKeyed (key_of b) m b refl h) h)

reported-spends :
    (k : Key) (m : Map Key Group)
    → IsSorted m
    → IsKeyed m
    → reported k (spends m) ≡ at_least_two (blocks_of (lookup k m))
unfolding spends lookup IsKeyed
reported-spends k [] s h = refl
reported-spends k ((j, (x, [])) ∷ m) s h =
    ground
      (arith, reported-spends k m s.1 h.1, eqb_iff k j, lookup-After j m s.0, ap (λ i. lookup i m))
reported-spends k ((j, (x, y ∷ ys)) ∷ m) s h = ground (arith, reported-spends k m s.1 h.1, h.0)

-- For every account and nonce, `detect_double_spend` reports the blocks that compete for it, all of them
-- and in the order of the input, exactly if there are at least two; the winner is the first.
pub detect_double_spend_lem :
    (k : Key) (blocks : List Block)
    → reported k (detect_double_spend blocks) ≡ at_least_two (with_key k blocks)
unfolding detect_double_spend lookup IsKeyed
detect_double_spend_lem k blocks =
    reported-spends k (group [] blocks) (group-IsSorted [] blocks tt) (group-IsKeyed [] blocks tt)
    ∙ ap at_least_two (blocks_of-group k [] blocks)
