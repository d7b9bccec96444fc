-- ===== src/Lattice/Ledger.antt =====
-- `Ledger` of crates/arxia-lattice/src/ledger.rs: the index of all account chains, and `add_block`.
pub mod Sums
pub mod Outcome
pub mod Invariant
pub mod Indices
pub mod Preserve
pub mod Gaps
use arxia.Prelude.{
  ℕ, ◌+◌, Bool, true, false, not, ◌||◌, Option, none, some, List, [], ◌∷◌, ◌++◌, length, last?, ltb,
  leb, ◌==◌, if◌then◌else◌,
}
use arxia.Prelude.Ord.{Str, eqb, str_ord}
use arxia.Prelude.Map.{Map, Set, lookup, insert, contains_key}
use arxia.Prelude.Words.{wrap_add, checked_add, u64_max}
use arxia.Prelude.Result.{Result, ok, err, panic, ◌>>=◌, ◌>>◌, ok_or, expect, ensure}
use arxia.Core.{
  ArxiaError, supply_cap_exceeded, unknown_source_send, wrong_destination, duplicate_receive,
  nonce_gap, hash_chain_broken, invalid_genesis, first_not_open, has_previous,
  total_supply_micro_arx,
}
use arxia.Lattice.Block.{
  Block, BlockType, open_block, send_block, receive_block, revoke_block, Host, is_open, is_empty,
  verify_block,
}

pub record SendInfo : Type 0 where
  pub destination : Str
  pub amount : ℕ

pub record Ledger : Type 0 where
  pub chains : Map Str (List Block)
  pub send_index : Map Str SendInfo
  pub consumed_sends : Set Str
  pub total_supply : ℕ

-- `Ledger::new`
pub new : Ledger
new = record { chains = []; send_index = []; consumed_sends = []; total_supply = 0 }

-- `get_chain`
unfoldable get_chain : Str → Ledger → Option (List Block)
get_chain account l = lookup account l.chains

-- The chain that `entry(account).or_default()` hands out.
unfoldable pub chain_of : Str → Ledger → List Block
chain_of account l = elim (lookup account l.chains) [ none ↦ [] | some bs ↦ bs ]

-- An open block must not take the supply over the ceiling.
pub check_supply : Ledger → BlockType → Result ArxiaError (Unit {0})
check_supply l (open_block initial_balance) = do
  projected ←
      ok_or (checked_add l.total_supply initial_balance)
        (supply_cap_exceeded u64_max total_supply_micro_arx)
  ensure (leb projected total_supply_micro_arx)
      (supply_cap_exceeded projected total_supply_micro_arx)
check_supply l (send_block destination amount) = ok tt
check_supply l (receive_block source_hash) = ok tt
check_supply l (revoke_block credential_hash) = ok tt

-- A receive block must cite an accepted send to its account that nobody has consumed.
pub check_source : Ledger → Str → BlockType → Result ArxiaError (Unit {0})
check_source l account (receive_block source_hash) = do
  send_info ← ok_or (lookup source_hash l.send_index) (unknown_source_send source_hash)
  ensure (eqb send_info.destination account) wrong_destination
  if contains_key source_hash l.consumed_sends then err (duplicate_receive source_hash) else ok tt
check_source l account (open_block n) = ok tt
check_source l account (send_block destination amount) = ok tt
check_source l account (revoke_block credential_hash) = ok tt

-- The chain-continuity check, against the last block of a chain of the given length.
pub check_position : Option Block → ℕ → Block → Result ArxiaError (Unit {0})
check_position (some last) len b = do
  ensure (b.nonce == wrap_add last.nonce 1) (nonce_gap len (wrap_add last.nonce 1) b.nonce)
  ensure (eqb b.previous last.hash) (hash_chain_broken len)
check_position none len b = do
  ensure (b.nonce == 1) (nonce_gap 0 1 b.nonce)
  ensure (is_open b.block_type) (invalid_genesis first_not_open)
  ensure (is_empty b.previous) (invalid_genesis has_previous)

-- The indices after an accepted block: sends, consumed sends and supply.
pub index_block : Ledger → Block → BlockType → Result ArxiaError Ledger
index_block l b (send_block destination amount) = ok (record l {
  send_index = insert b.hash (record { destination = destination; amount = amount }) l.send_index;
})
index_block l b (receive_block source_hash) =
    ok (record l { consumed_sends = insert source_hash tt l.consumed_sends })
index_block l b (open_block initial_balance) = do
  total ← expect (checked_add l.total_supply initial_balance)
  ok (record l { total_supply = total })
index_block l b (revoke_block credential_hash) = ok l

-- The chain of `account`, entered as an empty one if it was not there.
pub touch : Str → Ledger → Ledger
touch account l = record l { chains = insert account (chain_of account l) l.chains }

pub push : Block → Ledger → Ledger
push b l = record l { chains = insert b.account (chain_of b.account l ++ (b ∷ [])) l.chains }

module _ (h : Host) where
  -- The checks that come before the chain is looked up.
  pub check_block : Ledger → Block → Result ArxiaError (Unit {0})
  check_block l b = do
    verify_block h b
    check_supply l b.block_type
    check_source l b.account b.block_type

  -- The chain is looked up, checked, and extended.
  pub extend : Ledger → Block → Result ArxiaError (Unit {0}) × Ledger
  extend l b =
      elim (check_position (last? (chain_of b.account l)) (length (chain_of b.account l)) b) [
        | err e ↦ (err e, l)
        | panic ↦ (panic, l)
        | ok _ ↦ elim (index_block l b b.block_type) [
          | err e ↦ (err e, l)
          | panic ↦ (panic, l)
          | ok l' ↦ (ok tt, push b l')
        ]
      ]

  -- The result, and the ledger after the call.
  pub add_block : Ledger → Block → Result ArxiaError (Unit {0}) × Ledger
  add_block l b = elim (check_block l b) [
    | err e ↦ (err e, l)
    | panic ↦ (panic, l)
    | ok _ ↦ extend (touch b.account l) b
  ]

  -- A node that is offered blocks one after the other.
  pub ingest : Ledger → List Block → Ledger
  ingest l [] = l
  ingest l (b ∷ bs) = ingest (add_block l b).1 bs
