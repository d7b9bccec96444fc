-- ===== src/Crdt/Reconciliation/Balances.antt =====
-- The balance of an account is what its winning blocks bring, less what they send.
use arxia.Prelude.{
  ℕ, ◌+◌, ◌-◌, ◌≤◌, ◌≡◌, ap, ◌∙◌, false, Option, none, some, List, [], ◌∷◌, ◌++◌, arith,
  Option-cases, inl, inr,
}
use arxia.Prelude.Ord.{Str, eqb_iff, str_ord}
use arxia.Prelude.Map.{Map, lookup, insert, IsSorted}
use arxia.Prelude.Map.Laws.{lookup-insert, lookup-After}
use arxia.Prelude.Int.{ℤ, pos, is_negative, i64_max}
use arxia.Prelude.Result.{ok, bind-ok}
use arxia.Lattice.Block.{Block}
use arxia.Crdt.PnCounter.{PnCounter, value}
use arxia.Crdt.PnCounter.Balance.{value_nonnegative, new_empty, new-IsValid}
use arxia.Crdt.Reconciliation.{
  Key, ReconciliationReport, Progress, group, dedup, winners, applied_sends, apply_all, materialize,
  settle, reconcile_partitions,
}
use arxia.Crdt.Reconciliation.Tally.{IsTallied, credited, debited, apply_all_lem}

-- The balance that a report gives an account; one that it does not name has nothing.
abbrev pub balance_of : Option ℤ → ℤ
balance_of none = pos 0
balance_of (some v) = v

abbrev counted : Option ℤ → Option PnCounter → Option ℤ
counted before none = before
counted before (some c) = some (value c)

lookup-materialize :
    (x : Str) (before after : Map Str ℤ) (crdts : Map Str PnCounter)
    → IsSorted crdts
    → materialize before crdts ≡ ok after
    → lookup x after ≡ counted (lookup x before) (lookup x crdts)
unfolding materialize lookup
lookup-materialize x before after [] s e = ground (arith, e)
lookup-materialize x before after ((j, c) ∷ crdts) s e = ground (
  arith,
  e,
  lookup-materialize x (insert j (value c) before) after crdts s.1,
  lookup-insert x j (value c) before,
  eqb_iff x j,
  lookup-After j crdts s.0,
)

materialize_nonnegative :
    (x : Str) (c : PnCounter) (before after : Map Str ℤ) (crdts : Map Str PnCounter)
    → materialize before crdts ≡ ok after
    → lookup x crdts ≡ some c
    → is_negative (value c) ≡ false
unfolding materialize lookup
materialize_nonnegative x c before after [] e h = cc
materialize_nonnegative x c before after ((j, c') ∷ crdts) e h =
    ground (arith, e, h, materialize_nonnegative x c (insert j (value c') before) after crdts)

-- The winning blocks of two partitions.
abbrev pub reconciled : List Block → List Block → Map Key Block
reconciled partition_a partition_b = winners (group [] (dedup [] (partition_a ++ partition_b)))

start : Progress
start = record { crdts = []; rejected_receives = []; rejected_genesis = [] }

start-IsTallied : (x : Str) → IsTallied x start 0 0
unfolding start lookup
start-IsTallied x = record {
  ordered = tt;
  valid = new-IsValid;
  ups_eq = new_empty.0;
  downs_eq = new_empty.1;
}

-- What is left of a counter when the balances are made.
balance_of_counter :
    (x : Str) (st : Progress) (balances : Map Str ℤ) (up down : ℕ)
    → IsTallied x st up down
    → materialize [] st.crdts ≡ ok balances
    → up ≤ i64_max
    → down ≤ i64_max
    → (balance_of (lookup x balances) ≡ pos (up - down)) × (down ≤ up)
unfolding lookup
balance_of_counter x st balances up down t e le le' =
    let read = lookup-materialize x [] balances st.crdts t.ordered e in
    elim (Option-cases (lookup x st.crdts)) [
      | inl unknown ↦ ground (arith, read, unknown, t.ups_eq, t.downs_eq, new_empty)
      | inr (c, found) ↦ ground (
        arith,
        read,
        found,
        t.ups_eq,
        t.downs_eq,
        materialize_nonnegative x c [] balances st.crdts e found,
        value_nonnegative c,
      )
    ]

-- Where two partitions are reconciled, the balance of every account is what its winning blocks bring
-- (an open block with nonce 1 its initial balance, a receive the amount of the winning send that it
-- cites and that is to the account) less what its winning sends send away, and the first is not less
-- than the second; an account that the report does not name has 0. Both sums are within 2^63 - 1.
pub reconcile_balances :
    (partition_a partition_b : List Block) (report : ReconciliationReport) (x : Str)
    → reconcile_partitions partition_a partition_b ≡ ok report
    → credited x
        (applied_sends [] (reconciled partition_a partition_b))
        (reconciled partition_a partition_b)
      ≤ i64_max
    → debited x (reconciled partition_a partition_b) ≤ i64_max
    → (balance_of (lookup x report.balances)
        ≡ pos (
            credited x
              (applied_sends [] (reconciled partition_a partition_b))
              (reconciled partition_a partition_b)
            - debited x (reconciled partition_a partition_b)))
      × (debited x (reconciled partition_a partition_b)
          ≤ credited x
              (applied_sends [] (reconciled partition_a partition_b))
              (reconciled partition_a partition_b))
unfolding reconcile_partitions settle start
reconcile_balances partition_a partition_b report x e le le' =
    let w = reconciled partition_a partition_b in
    let sends = applied_sends [] w in
    let (st, applied, made) = bind-ok (apply_all sends w start) _ report e in
    let (balances, made', report_eq) = bind-ok (materialize [] st.crdts) _ report made in
    let tally =
      apply_all_lem x sends w 0 0 start st (start-IsTallied x) (omega arith) (omega arith)
        applied in
    let r =
      balance_of_counter x st balances (0 + credited x sends w) (0 + debited x w) tally made'
        (omega arith) (omega arith) in
    let b : report.balances ≡ balances = ground (arith, report_eq) in
    (rw b (r.0 ∙ ap pos (omega arith)), omega (arith, r.1))
