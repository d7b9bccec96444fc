-- ===== src/Crdt/Reconciliation/Tally.antt =====
-- The counter of one account in the course of the loop that applies the winning blocks.
use arxia.Prelude.{
  ℕ, ◌+◌, ◌≤◌, ◌≡◌, refl, ap, ◌∙◌, true, false, Option, none, some, [], ◌∷◌, arith, Bool-cases,
  Option-cases, inl, inr, ◌==◌, if◌then◌else◌,
}
use mathlib.Core.Path.{subst}
use arxia.Prelude.Ord.{Str, eqb, eqb_iff, str_ord}
use arxia.Prelude.Map.{Map, lookup, insert, IsSorted}
use arxia.Prelude.Map.Laws.{lookup-insert, insert-IsSorted}
use arxia.Prelude.Map.Sums.{sum_values}
use arxia.Prelude.Words.{u64_max, saturating_add}
use arxia.Prelude.Result.{ok, bind-ok}
use arxia.Lattice.Block.{Block, BlockType, open_block, send_block, receive_block, revoke_block}
use arxia.Lattice.Chain.{first_eight}
use arxia.Clock.{count_of}
use arxia.Crdt.PnCounter.{PnCounter, increment, decrement}
use arxia.Crdt.PnCounter.Convergence.{IsValid}
use arxia.Crdt.PnCounter.Balance.{sum_values-bump}
use arxia.Crdt.Reconciliation.{
  Key, Progress, counter_of, credit, debit, amount_to, apply_receive, apply_type, apply_all,
  reject_receive, reject_genesis,
}

-- What an applied block brings to its account, and what it sends away.
abbrev carried_to : Str → BlockType → ℕ
carried_to account (send_block destination amount) = if eqb destination account then amount else 0
carried_to account _ = 0

abbrev source_amount : Str → Option Block → ℕ
source_amount account none = 0
source_amount account (some source) = carried_to account source.block_type

abbrev pub brings : Map Str Block → Block → BlockType → ℕ
brings sends b (open_block initial_balance) = if b.nonce == 1 then initial_balance else 0
brings sends b (send_block destination amount) = 0
brings sends b (receive_block source_hash) = source_amount b.account (lookup source_hash sends)
brings sends b (revoke_block credential) = 0

abbrev sends_away : BlockType → ℕ
sends_away (send_block destination amount) = amount
sends_away _ = 0

unfoldable pub credited : Str → Map Str Block → Map Key Block → ℕ
credited x sends [] = 0
credited x sends ((k, b) ∷ w) =
    (if eqb b.account x then brings sends b b.block_type else 0) + credited x sends w

unfoldable pub debited : Str → Map Key Block → ℕ
debited x [] = 0
debited x ((k, b) ∷ w) = (if eqb b.account x then sends_away b.block_type else 0) + debited x w

-- The sums of the two halves of its counter.
abbrev ups : Str → Progress → ℕ
ups x st = sum_values (counter_of x st.crdts).p

abbrev downs : Str → Progress → ℕ
downs x st = sum_values (counter_of x st.crdts).n

pub record IsTallied (x : Str) (st : Progress) (up down : ℕ) : Type 0 where
  pub ordered : IsSorted st.crdts
  pub valid : IsValid (counter_of x st.crdts)
  pub ups_eq : ups x st ≡ up
  pub downs_eq : downs x st ≡ down

module _ (x account : Str) (amount : ℕ) (st : Progress) where
  counter_of-insert :
      (c : PnCounter)
      → counter_of x (insert account c st.crdts)
        ≡ (if eqb account x then c else counter_of x st.crdts)
  counter_of-insert c =
      ground (arith, lookup-insert x account c st.crdts, eqb_iff x account, eqb_iff account x)

  tally-insert :
      (c : PnCounter) (up down up' down' : ℕ)
      → IsTallied x st up down
      → (eqb account x ≡ true → IsValid c × (sum_values c.p ≡ up') × (sum_values c.n ≡ down'))
      → (eqb account x ≡ false → (up ≡ up') × (down ≡ down'))
      → IsTallied x (record st { crdts = insert account c st.crdts }) up' down'
  tally-insert c up down up' down' t here there = elim (Bool-cases (eqb account x)) [
    | inl same ↦
        let e : counter_of x (insert account c st.crdts) ≡ c =
          ground (arith, counter_of-insert c) in
        record {
          ordered = insert-IsSorted account c st.crdts t.ordered;
          valid = rw e (here same).0;
          ups_eq = rw e (here same).1;
          downs_eq = rw e (here same).2;
        }
    | inr other ↦
        let e : counter_of x (insert account c st.crdts) ≡ counter_of x st.crdts =
          ground (arith, counter_of-insert c) in
        record {
          ordered = insert-IsSorted account c st.crdts t.ordered;
          valid = rw e t.valid;
          ups_eq = rw e (t.ups_eq ∙ (there other).0);
          downs_eq = rw e (t.downs_eq ∙ (there other).1);
        }
  ]

  counter_of_same : eqb account x ≡ true → counter_of account st.crdts ≡ counter_of x st.crdts
  counter_of_same h = ap (λ a. counter_of a st.crdts) ((eqb_iff account x).0 h)

  credit_lem :
      (up down : ℕ) (st' : Progress)
      → IsTallied x st up down
      → up + (if eqb account x then amount else 0) ≤ u64_max
      → credit account amount st ≡ ok st'
      → IsTallied x st' (up + (if eqb account x then amount else 0)) down
  unfolding credit
  credit_lem up down st' t le e = elim (Option-cases (first_eight account)) [
    | inl short ↦ cc (rw short at e)
    | inr (sid, cut) ↦
        let c = counter_of account st.crdts in
        let st_eq : record st { crdts = insert account (increment sid amount c) st.crdts } ≡ st' =
          ground (arith, rw cut at e) in
        subst (λ s. IsTallied x s (up + (if eqb account x then amount else 0)) down) st_eq
          (tally-insert (increment sid amount c) up down
            (up + (if eqb account x then amount else 0)) down t
            (λ h.
              let same = counter_of_same h in
              let v : IsValid c = rw same t.valid in
              let u : sum_values c.p ≡ up = rw same t.ups_eq in
              (
                (insert-IsSorted sid (saturating_add (count_of sid c.p) amount) c.p v.0, v.1),
                ground (arith, sum_values-bump sid amount c.p v.0, h, u),
                rw same t.downs_eq,
              ))
            (λ h. (ground (arith, h), refl)))
  ]

  debit_lem :
      (up down : ℕ) (st' : Progress)
      → IsTallied x st up down
      → down + (if eqb account x then amount else 0) ≤ u64_max
      → debit account amount st ≡ ok st'
      → IsTallied x st' up (down + (if eqb account x then amount else 0))
  unfolding debit
  debit_lem up down st' t le e = elim (Option-cases (first_eight account)) [
    | inl short ↦ cc (rw short at e)
    | inr (sid, cut) ↦
        let c = counter_of account st.crdts in
        let st_eq : record st { crdts = insert account (decrement sid amount c) st.crdts } ≡ st' =
          ground (arith, rw cut at e) in
        subst (λ s. IsTallied x s up (down + (if eqb account x then amount else 0))) st_eq
          (tally-insert (decrement sid amount c) up down up
            (down + (if eqb account x then amount else 0)) t
            (λ h.
              let same = counter_of_same h in
              let v : IsValid c = rw same t.valid in
              let u : sum_values c.n ≡ down = rw same t.downs_eq in
              (
                (v.0, insert-IsSorted sid (saturating_add (count_of sid c.n) amount) c.n v.1),
                rw same t.ups_eq,
                ground (arith, sum_values-bump sid amount c.n v.1, h, u),
              ))
            (λ h. (refl, ground (arith, h))))
  ]

retally :
    {x : Str} {st st' : Progress} {up down up' down' : ℕ}
    → st.crdts ≡ st'.crdts
    → up ≡ up'
    → down ≡ down'
    → IsTallied x st up down
    → IsTallied x st' up' down'
retally e p q t = record {
  ordered = rw (← e) t.ordered;
  valid = rw (← e) t.valid;
  ups_eq = rw (← e) (t.ups_eq ∙ p);
  downs_eq = rw (← e) (t.downs_eq ∙ q);
}

module _ (x : Str) (sends : Map Str Block) where
  -- What one block adds to the tallies of the account.
  abbrev plus : Block → BlockType → ℕ
  plus b t = if eqb b.account x then brings sends b t else 0

  abbrev minus : Block → BlockType → ℕ
  minus b t = if eqb b.account x then sends_away t else 0

  apply_receive_lem :
      (b : Block) (h : Str) (o : Option Block) (up down : ℕ) (st st' : Progress)
      → IsTallied x st up down
      → up + (if eqb b.account x then source_amount b.account o else 0) ≤ u64_max
      → apply_receive b h o st ≡ ok st'
      → IsTallied x st' (up + (if eqb b.account x then source_amount b.account o else 0)) down
  unfolding apply_receive reject_receive
  apply_receive_lem b h none up down st st' t le e =
      retally (ground (arith, e)) (ground arith) refl t
  apply_receive_lem b h (some source) up down st st' t le e =
      elim (Option-cases (amount_to b.account source.block_type)) [
        | inl nothing ↦ retally (ground (arith, e, nothing)) (ground (arith, nothing)) refl t
        | inr (amount, brought) ↦ retally refl (ground (arith, brought)) refl (
            credit_lem x b.account amount st up down st' t (ground (arith, le, brought))
              (ground (arith, e, brought)))
      ]

  apply_type_lem :
      (b : Block) (type : BlockType) (up down : ℕ) (st st' : Progress)
      → IsTallied x st up down
      → up + plus b type ≤ u64_max
      → down + minus b type ≤ u64_max
      → apply_type sends b type st ≡ ok st'
      → IsTallied x st' (up + plus b type) (down + minus b type)
  unfolding apply_type reject_genesis
  apply_type_lem b (open_block n) up down st st' t le le' e = elim (Bool-cases (b.nonce == 1)) [
    | inl first ↦
        retally refl (ground (arith, first)) (ground arith)
          (credit_lem x b.account n st up down st' t (ground (arith, le, first)) (rw first at e))
    | inr later ↦ retally (ground (arith, e, later)) (ground (arith, later)) (ground arith) t
  ]
  apply_type_lem b (send_block d n) up down st st' t le le' e =
      retally refl (ground arith) refl (debit_lem x b.account n st up down st' t le' e)
  apply_type_lem b (receive_block h) up down st st' t le le' e =
      retally refl refl (ground arith)
        (apply_receive_lem b h (lookup h sends) up down st st' t le e)
  apply_type_lem b (revoke_block h) up down st st' t le le' e =
      retally (ground (arith, e)) (ground arith) (ground arith) t

  pub apply_all_lem :
      (w : Map Key Block) (up down : ℕ) (st st' : Progress)
      → IsTallied x st up down
      → up + credited x sends w ≤ u64_max
      → down + debited x w ≤ u64_max
      → apply_all sends w st ≡ ok st'
      → IsTallied x st' (up + credited x sends w) (down + debited x w)
  unfolding apply_all credited debited
  apply_all_lem [] up down st st' t le le' e =
      retally (ground (arith, e)) (omega arith) (omega arith) t
  apply_all_lem ((k, b) ∷ w) up down st st' t le le' e =
      let (mid, first, rest) =
        bind-ok (apply_type sends b b.block_type st) (apply_all sends w) st' e in
      retally refl (omega arith) (omega arith) (
        apply_all_lem w (up + plus b b.block_type) (down + minus b b.block_type) mid st'
          (apply_type_lem b b.block_type up down st mid t (omega arith) (omega arith) first)
          (omega arith) (omega arith) rest)
