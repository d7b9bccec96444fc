-- ===== src/Consensus/Tests.antt =====
-- Votes and blocks at which the theorems on them are applied.
use arxia.Prelude.{ℕ, ◌≡◌, refl, [], ◌∷◌, arith}
use arxia.Prelude.Ord.{str_ord}
use arxia.Lattice.Block.{Block, send_block}
use arxia.Crdt.Reconciliation.Groups.{with_key}
use arxia.Consensus.Enumeration.{detect_double_spend}
use arxia.Consensus.Enumeration.Complete.{reported, at_least_two, detect_double_spend_lem}
use arxia.Consensus.Conflict.{VoteOrv, resolve_conflict_orv, resolve_conflict_orv_swap}

abbrev spend : Block
spend = record {
  account = 97 ∷ [];
  previous = 98 ∷ [];
  block_type = send_block (99 ∷ []) 5;
  balance = 10;
  nonce = 2;
  timestamp = 0;
  hash = 48 ∷ [];
  signature = [];
}

abbrev respend : Block
respend = record {
  account = 97 ∷ [];
  previous = 98 ∷ [];
  block_type = send_block (100 ∷ []) 5;
  balance = 10;
  nonce = 2;
  timestamp = 0;
  hash = 49 ∷ [];
  signature = [];
}

abbrev vote : ℕ → VoteOrv
vote n = record {
  block_hash = [];
  voter_pubkey = [];
  delegated_stake = n;
  nonce = 0;
  signature = [];
}

resolve_conflict_orv_swap_example :
    resolve_conflict_orv spend respend (vote 3 ∷ []) (vote 9 ∷ vote 1 ∷ [])
    ≡ resolve_conflict_orv respend spend (vote 9 ∷ vote 1 ∷ []) (vote 3 ∷ [])
resolve_conflict_orv_swap_example =
    resolve_conflict_orv_swap spend respend (vote 3 ∷ []) (vote 9 ∷ vote 1 ∷ []) refl refl
      (λ e. ground (arith, e))

detect_double_spend_lem_example :
    reported ((97 ∷ []), 2) (detect_double_spend (spend ∷ respend ∷ []))
    ≡ at_least_two (with_key ((97 ∷ []), 2) (spend ∷ respend ∷ []))
detect_double_spend_lem_example = detect_double_spend_lem ((97 ∷ []), 2) (spend ∷ respend ∷ [])
