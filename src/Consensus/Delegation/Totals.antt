-- ===== src/Consensus/Delegation/Totals.antt =====
-- The stake that is delegated to a representative, by its three routes.
use arxia.Prelude.{ℕ, ◌+◌, ◌≤◌, ◌≡◌, refl, ap, ◌∙◌, List, [], ◌∷◌, arith, if◌then◌else◌}
use arxia.Prelude.Ord.{Str, eqb, eqb_iff, str_ord}
use arxia.Prelude.Map.{Map, lookup, insert}
use arxia.Prelude.Map.Laws.{lookup-insert}
use arxia.Prelude.Map.Sums.{or_zero}
use arxia.Prelude.Words.{saturating_add, u64_max}
use arxia.Consensus.Delegation.{
  Delegation, DelegationGraph, sum_for, values, total_for_representative, total_delegated_stake,
  fold_totals, snapshot, total_for,
}

total_for-fold_totals :
    (totals : Map Str ℕ) (ds : List Delegation) (representative : Str)
    → total_for (fold_totals totals ds) representative
      ≡ sum_for representative (total_for totals representative) ds
unfolding fold_totals sum_for total_for
total_for-fold_totals totals [] representative = refl
total_for-fold_totals totals (d ∷ ds) representative =
    let totals' =
      insert d.representative (saturating_add (or_zero (lookup d.representative totals)) d.amount)
        totals in
    total_for-fold_totals totals' ds representative
    ∙ ap (λ t. sum_for representative t ds)
        (ground (
          arith,
          lookup-insert representative d.representative
              (saturating_add (or_zero (lookup d.representative totals)) d.amount) totals,
          eqb_iff representative d.representative,
          eqb_iff d.representative representative,
        ))

-- The sum of the delegations to a representative.
pub stake_of : Str → List Delegation → ℕ
stake_of representative [] = 0
stake_of representative (d ∷ ds) =
    (if eqb d.representative representative then d.amount else 0) + stake_of representative ds

sum_for-stake_of :
    (representative : Str) (t : ℕ) (ds : List Delegation)
    → t ≤ u64_max
    → sum_for representative t ds ≡ saturating_add t (stake_of representative ds)
unfolding sum_for stake_of
sum_for-stake_of representative t [] le = ground arith
sum_for-stake_of representative t (d ∷ ds) le = ground (
  arith,
  sum_for-stake_of representative t ds,
  sum_for-stake_of representative (saturating_add t d.amount) ds,
)

-- A snapshot gives for every representative, also one that no edge names, what the graph and the
-- list of its delegations give: the sum of the delegations to it, or the largest `u64` where the sum
-- is beyond that. So no order of the walk through the edges changes it.
pub snapshot_lem :
    (g : DelegationGraph) (representative : Str)
    → (total_for (snapshot g) representative
        ≡ saturating_add 0 (stake_of representative (values g.edges)))
      × (total_for_representative g representative
          ≡ saturating_add 0 (stake_of representative (values g.edges)))
      × (total_delegated_stake representative (values g.edges)
          ≡ saturating_add 0 (stake_of representative (values g.edges)))
unfolding snapshot total_for_representative total_delegated_stake total_for lookup
snapshot_lem g representative =
    let sum = sum_for-stake_of representative 0 (values g.edges) (omega arith) in
    (total_for-fold_totals [] (values g.edges) representative ∙ sum, sum, sum)
