-- ===== src/Consensus/Conflict.antt =====
-- crates/arxia-consensus/src/conflict.rs: `resolve_conflict_orv`, over the votes of vote.rs.
use Prim.Native.Nat.Ordering.{gt}
use arxia.Prelude.{
  ℕ, ◌-◌, ◌≡◌, ◌≢◌, Bool, true, false, List, [], ◌∷◌, ltb, leb, if◌then◌else◌, arith,
}
use arxia.Prelude.Ord.{Str, cmp_str, str-IsTotal}
use arxia.Prelude.Words.{Bytes, wrap_add, saturating_add, saturating_mul}
use arxia.Prelude.Result.{Result, ok, ◌>>◌, ensure}
use arxia.Core.{ArxiaError, ineligible_conflict_block_type}
use arxia.Lattice.Block.{Block, BlockType, open_block, send_block, receive_block, revoke_block}

pub record VoteOrv : Type 0 where
  pub block_hash : Bytes
  pub voter_pubkey : Bytes
  pub delegated_stake : ℕ
  pub nonce : ℕ
  pub signature : Bytes

pub data Method : Type 0 where
  stake_weighted hash_tiebreaker : Method

abbrev is_eligible_for_orv : BlockType → Bool
is_eligible_for_orv (open_block n) = true
is_eligible_for_orv (send_block d n) = true
is_eligible_for_orv (receive_block s) = true
is_eligible_for_orv (revoke_block s) = false

-- "Open", "Send", "Receive", "Revoke"
abbrev block_type_tag : BlockType → Str
block_type_tag (open_block n) = 79 ∷ 112 ∷ 101 ∷ 110 ∷ []
block_type_tag (send_block d n) = 83 ∷ 101 ∷ 110 ∷ 100 ∷ []
block_type_tag (receive_block s) = 82 ∷ 101 ∷ 99 ∷ 101 ∷ 105 ∷ 118 ∷ 101 ∷ []
block_type_tag (revoke_block s) = 82 ∷ 101 ∷ 118 ∷ 111 ∷ 107 ∷ 101 ∷ []

-- `iter().map(|v| v.delegated_stake).sum()`, which wraps in the release build
unfoldable sum_stakes : ℕ → List VoteOrv → ℕ
sum_stakes t [] = t
sum_stakes t (v ∷ votes) = sum_stakes (wrap_add t v.delegated_stake) votes

-- `u64::abs_diff`
abbrev abs_diff : ℕ → ℕ → ℕ
abs_diff a b = if leb b a then a - b else b - a

-- `a <= b` of two texts
abbrev le_str : Str → Str → Bool
le_str a b = elim (cmp_str a b) [ gt ↦ false | _ ↦ true ]

-- The choice, once the stakes are known.
choose : Block → Block → ℕ → ℕ → Block × Method
choose block_a block_b stake_a stake_b =
    let total_stake = saturating_add stake_a stake_b in
    let tiebreaker =
      if le_str block_a.hash block_b.hash
      then (block_a, hash_tiebreaker)
      else (block_b, hash_tiebreaker) in
    if ltb 0 total_stake
    then (if ltb total_stake (saturating_mul (abs_diff stake_a stake_b) 20)
        then (if ltb stake_b stake_a then (block_a, stake_weighted) else (block_b, stake_weighted))
        else tiebreaker)
    else tiebreaker

pub resolve_conflict_orv :
    Block → Block → List VoteOrv → List VoteOrv → Result ArxiaError (Block × Method)
resolve_conflict_orv block_a block_b votes_a votes_b = do
  ensure (is_eligible_for_orv block_a.block_type)
      (ineligible_conflict_block_type block_a.hash (block_type_tag block_a.block_type))
  ensure (is_eligible_for_orv block_b.block_type)
      (ineligible_conflict_block_type block_b.hash (block_type_tag block_b.block_type))
  ok (choose block_a block_b (sum_stakes 0 votes_a) (sum_stakes 0 votes_b))

choose_swap : (a b : Block) (m n : ℕ) → a.hash ≢ b.hash → choose a b m n ≡ choose b a n m
unfolding choose
choose_swap a b m n d =
    ground (arith, str-IsTotal.eq_of_cmp a.hash b.hash, str-IsTotal.cmp_flip a.hash b.hash)

-- Two nodes that see the same two blocks with the same votes choose the same one by the same method,
-- whichever of the blocks each takes first, where both blocks are eligible and their hashes differ.
pub resolve_conflict_orv_swap :
    (block_a block_b : Block) (votes_a votes_b : List VoteOrv)
    → is_eligible_for_orv block_a.block_type ≡ true
    → is_eligible_for_orv block_b.block_type ≡ true
    → block_a.hash ≢ block_b.hash
    → resolve_conflict_orv block_a block_b votes_a votes_b
      ≡ resolve_conflict_orv block_b block_a votes_b votes_a
unfolding resolve_conflict_orv
resolve_conflict_orv_swap a b va vb ea eb d =
    rw (ea, eb, choose_swap a b (sum_stakes 0 va) (sum_stakes 0 vb) d)
