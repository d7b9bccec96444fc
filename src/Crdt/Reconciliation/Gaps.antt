-- ===== src/Crdt/Reconciliation/Gaps.antt =====
-- Reconciliation remembers no receive: two of them may cite the same send.
use arxia.Prelude.{
  ℕ, ◌+◌, ◌-◌, ◌≤◌, ◌≡◌, ◌≢◌, sym, ap, ◌∙◌, Bool-cases, inl, inr, some, List, [], ◌∷◌, arith,
  if◌then◌else◌,
}
use arxia.Prelude.Ord.{Str, eqb, eqb_iff, str_ord, pair_ord, nat_ord}
use arxia.Prelude.Map.{Map, lookup}
use arxia.Prelude.Int.{pos, i64_max}
use arxia.Prelude.Result.{ok}
use arxia.Lattice.Block.{Block, send_block, receive_block}
use arxia.Crdt.Reconciliation.{Key, ReconciliationReport, applied_sends, reconcile_partitions}
use arxia.Crdt.Reconciliation.Tally.{credited, debited, brings}
use arxia.Crdt.Reconciliation.Balances.{balance_of, reconciled, reconcile_balances}

-- What a block adds to what is credited to an account.
abbrev share : Str → Map Str Block → Block → ℕ
share x sends b = if eqb b.account x then brings sends b b.block_type else 0

share_le :
    (x : Str) (sends : Map Str Block) (w : Map Key Block) (k : Key) (b : Block)
    → lookup k w ≡ some b
    → share x sends b ≤ credited x sends w
unfolding credited lookup
share_le x sends [] k b e = cc
share_le x sends ((j, d) ∷ w) k b e = ground (arith, share_le x sends w k b, e)

shares_le :
    (x : Str) (sends : Map Str Block) (w : Map Key Block) (k l : Key) (b d : Block)
    → k ≢ l
    → lookup k w ≡ some b
    → lookup l w ≡ some d
    → share x sends b + share x sends d ≤ credited x sends w
unfolding credited lookup
shares_le x sends [] k l b d ne e f = cc
shares_le x sends ((j, a) ∷ w) k l b d ne e f = elim (Bool-cases (eqb k j)) [
  | inl k_here ↦ elim (Bool-cases (eqb l j)) [
    | inl l_here ↦ absurd (ne ((eqb_iff k j).0 k_here ∙ sym ((eqb_iff l j).0 l_here)))
    | inr l_later ↦
        let same : a ≡ b = ground (arith, e, k_here) in
        omega (arith, ap (share x sends) same, share_le x sends w l d (ground (arith, f, l_later)))
  ]
  | inr k_later ↦ elim (Bool-cases (eqb l j)) [
    | inl l_here ↦
        let same : a ≡ d = ground (arith, f, l_here) in
        omega (arith, ap (share x sends) same, share_le x sends w k b (ground (arith, e, k_later)))
    | inr l_later ↦ omega (
      arith,
      shares_le x sends w k l b d ne (ground (arith, e, k_later)) (ground (arith, f, l_later)),
    )
  ]
]

share-receive :
    (x hash : Str) (sends : Map Str Block) (source b : Block) (amount : ℕ)
    → lookup hash sends ≡ some source
    → source.block_type ≡ send_block x amount
    → b.account ≡ x
    → b.block_type ≡ receive_block hash
    → share x sends b ≡ amount
share-receive x hash sends source b amount found sent here cites =
    ground (arith, found, sent, here, cites, eqb_iff b.account x, eqb_iff x b.account, eqb_iff x x)

module _ (partition_a partition_b : List Block) (report : ReconciliationReport) where
  -- Two receives of an account that win their places and cite one winning send to it are both credited:
  -- what the account has in the report and what it sent away come to at least twice the amount, where
  -- the sums of what it gets and what it sends are within 2^63 - 1.
  pub double_credit :
      (x hash : Str) (k l : Key) (source b d : Block) (amount : ℕ)
      → reconcile_partitions partition_a partition_b ≡ ok report
      → credited x
          (applied_sends [] (reconciled partition_a partition_b))
          (reconciled partition_a partition_b)
        ≤ i64_max
      → debited x (reconciled partition_a partition_b) ≤ i64_max
      → lookup hash (applied_sends [] (reconciled partition_a partition_b)) ≡ some source
      → source.block_type ≡ send_block x amount
      → k ≢ l
      → lookup k (reconciled partition_a partition_b) ≡ some b
      → lookup l (reconciled partition_a partition_b) ≡ some d
      → b.account ≡ x
      → d.account ≡ x
      → b.block_type ≡ receive_block hash
      → d.block_type ≡ receive_block hash
      → (v : ℕ) × (balance_of (lookup x report.balances) ≡ pos v)
        × (amount + amount ≤ v + debited x (reconciled partition_a partition_b))
  double_credit x hash k l source b d amount e up down found sent ne kb ld bx dx b_cites d_cites =
      let w = reconciled partition_a partition_b in
      let sends = applied_sends [] w in
      let r = reconcile_balances partition_a partition_b report x e up down in
      (
        credited x sends w - debited x w,
        r.0,
        omega (
          arith,
          r.1,
          shares_le x sends w k l b d ne kb ld,
          share-receive x hash sends source b amount found sent bx b_cites,
          share-receive x hash sends source d amount found sent dx d_cites,
        ),
      )
