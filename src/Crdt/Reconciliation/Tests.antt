-- ===== src/Crdt/Reconciliation/Tests.antt =====
-- Partitions at which the theorems on them are applied.
use arxia.Prelude.{ℕ, ◌+◌, ◌-◌, ◌≤◌, ◌≡◌, ◌≢◌, refl, ap, none, some, List, [], ◌∷◌, arith}
use arxia.Prelude.Ord.{Str, str_ord, cmp_str, pair_ord, nat_ord}
use arxia.Prelude.Map.{lookup, insert}
use arxia.Prelude.Int.{pos}
use arxia.Prelude.Result.{ok}
use arxia.Lattice.Block.{Block, open_block, send_block, receive_block}
use arxia.Crdt.Reconciliation.{
  ReconciliationReport, group, dedup, winners, applied_sends, reconcile_partitions,
}
use arxia.Crdt.Reconciliation.Symmetry.{reconcile_swap}
use arxia.Crdt.Reconciliation.Tally.{credited, debited}
use arxia.Crdt.Reconciliation.Balances.{balance_of, reconciled, reconcile_balances}
use arxia.Crdt.Reconciliation.Gaps.{double_credit}
use arxia.Crdt.Reconciliation.Scenario.{alice, bob, block, paying, receiving, paying_twice}

abbrev report : ReconciliationReport
report = record {
  balances = (alice, pos 6) ∷ (bob, pos 8) ∷ [];
  conflicts = [];
  rejected_receives = [];
  rejected_genesis = [];
}

next_differs : (n : ℕ) → n ≢ n + 1
next_differs n e = omega (arith, e)

paid : reconcile_partitions (paying 10 4) receiving ≡ ok report
paid = paying_twice 10 4 (omega arith) (omega arith) (omega arith)

reconcile_balances_example :
    (balance_of (lookup alice report.balances)
      ≡ pos (
          credited alice
            (applied_sends [] (reconciled (paying 10 4) receiving))
            (reconciled (paying 10 4) receiving)
          - debited alice (reconciled (paying 10 4) receiving)))
    × (debited alice (reconciled (paying 10 4) receiving)
        ≤ credited alice
            (applied_sends [] (reconciled (paying 10 4) receiving))
            (reconciled (paying 10 4) receiving))
unfolding credited debited applied_sends winners group dedup lookup insert cmp_str
reconcile_balances_example =
    reconcile_balances (paying 10 4) receiving report alice paid (omega arith) (omega arith)

double_credit_example :
    (v : ℕ) × (balance_of (lookup bob report.balances) ≡ pos v)
    × (4 + 4 ≤ v + debited bob (reconciled (paying 10 4) receiving))
unfolding credited debited applied_sends winners group dedup lookup insert cmp_str
double_credit_example =
    double_credit (paying 10 4) receiving report bob (2 ∷ []) (bob, 1) (bob, 2)
      (block alice 2 2 (send_block bob 4)) (block bob 1 3 (receive_block (2 ∷ [])))
      (block bob 2 4 (receive_block (2 ∷ []))) 4 paid (omega arith) (omega arith) refl refl
      (λ e. next_differs 1 (ap (λ k. k.1) e)) refl refl refl refl refl refl

-- Another send of Alice's second nonce, whose hash is larger.
abbrev respending : List Block
respending = block alice 2 5 (send_block bob 3) ∷ []

abbrev block_of : Str → Block
block_of h =
    elim (lookup h (
      (1 ∷ [], block alice 1 1 (open_block 10))
      ∷ (2 ∷ [], block alice 2 2 (send_block bob 4))
      ∷ (5 ∷ [], block alice 2 5 (send_block bob 3))
      ∷ [])) [ none ↦ block [] 0 0 (open_block 0) | some b ↦ b ]

abbrev spending : List Block
spending = block alice 1 1 (open_block 10) ∷ block alice 2 2 (send_block bob 4) ∷ []

reconcile_swap_example :
    reconcile_partitions spending respending ≡ reconcile_partitions respending spending
unfolding lookup cmp_str
reconcile_swap_example = reconcile_swap block_of spending respending (refl, (refl, tt)) (refl, tt)
