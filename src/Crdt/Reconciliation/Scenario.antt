-- ===== src/Crdt/Reconciliation/Scenario.antt =====
-- Two partitions in which one send is received twice.
use arxia.Prelude.{ℕ, ◌+◌, ◌-◌, ◌≤◌, ◌≡◌, refl, List, [], ◌∷◌}
use arxia.Prelude.Ord.{Str, str_ord, cmp_str, pair_ord, nat_ord}
use arxia.Prelude.Map.{lookup, insert}
use arxia.Prelude.Int.{pos, i64_max}
use arxia.Prelude.Result.{ok}
use arxia.Lattice.Block.{Block, BlockType, open_block, send_block, receive_block}
use arxia.Lattice.Chain.{first_eight}
use arxia.Crdt.PnCounter.Balance.{value_inc_dec, value_inc_inc}
use arxia.Crdt.Reconciliation.{
  group, dedup, winners, conflicts, applied_sends, credit, debit, apply_receive, apply_type,
  apply_all, materialize, settle, reconcile_partitions,
}

abbrev pub alice : Str
alice = 97 ∷ 97 ∷ 97 ∷ 97 ∷ 97 ∷ 97 ∷ 97 ∷ 97 ∷ []

abbrev pub bob : Str
bob = 98 ∷ 98 ∷ 98 ∷ 98 ∷ 98 ∷ 98 ∷ 98 ∷ 98 ∷ []

abbrev pub block : Str → ℕ → ℕ → BlockType → Block
block account nonce hash type = record {
  account = account;
  previous = [];
  block_type = type;
  balance = 0;
  nonce = nonce;
  timestamp = 0;
  hash = hash ∷ [];
  signature = [];
}

-- Alice opens with `total` and sends `amount` to Bob.
abbrev pub paying : ℕ → ℕ → List Block
paying total amount =
    block alice 1 1 (open_block total) ∷ block alice 2 2 (send_block bob amount) ∷ []

-- Bob receives the one send twice, at two nonces.
abbrev pub receiving : List Block
receiving = block bob 1 3 (receive_block (2 ∷ [])) ∷ block bob 2 4 (receive_block (2 ∷ [])) ∷ []

-- Both receives are credited: of the
-- `total` that Alice opens with she keeps what she did not send, and Bob has the amount twice. No
-- conflict and no rejected receive is reported.
pub paying_twice :
    (total amount : ℕ)
    → amount ≤ total
    → total ≤ i64_max
    → amount + amount ≤ i64_max
    → reconcile_partitions (paying total amount) receiving
      ≡ ok (record {
        balances = (alice, pos (total - amount)) ∷ (bob, pos (amount + amount)) ∷ [];
        conflicts = [];
        rejected_receives = [];
        rejected_genesis = [];
      })
unfolding reconcile_partitions settle materialize apply_all apply_type apply_receive credit debit
    applied_sends winners conflicts group dedup lookup insert cmp_str first_eight
paying_twice total amount h k l =
    rw (value_inc_dec alice total amount h k, value_inc_inc bob amount amount l) refl
