-- ===== src/Finality/Tests.antt =====
-- A validator, its vote and its confirmation, at which the theorems on finality are applied.
use arxia.Prelude.{◌*◌, ◌≤◌, ◌≡◌, refl, [], ◌∷◌, leb, arith}
use arxia.Prelude.Ord.{cmp_str, str_ord}
use arxia.Prelude.Words.{Bytes}
use arxia.Prelude.Map.{lookup}
use arxia.Prelude.Map.Sums.{sum_values, fold_values}
use arxia.Prelude.Result.{ok, ◌>>◌}
use arxia.Crypto.{verify}
use arxia.Crypto.Toy.{toy, pad}
use arxia.Gossip.NonceRegistry.{
  NonceRegistry, sync_nonces_before_l1, count_local, count_remote, no_neighbors, success,
}
use arxia.Finality.{
  SignedConfirmation, SignedValidatorVote, ValidatorRegistry, vote_bytes, confirmation_bytes,
  has_l2_quorum, assess_finality, l0, l1, rank, Assessment, FinalityLatch, verify_signature,
  find_confirmation, total_stake, count_votes,
}
use arxia.Finality.Quorum.{has_l2_quorum_lem, verify_votes, voted_stake}
use arxia.Finality.Latch.{run, run_grows, level_of}

abbrev key : Bytes
key = 1 ∷ []

abbrev block : Bytes
block = 2 ∷ []

-- `key` holds 60 of 100.
abbrev validators : ValidatorRegistry
validators = (key, 60) ∷ ((3 ∷ []), 40) ∷ []

abbrev vote : SignedValidatorVote
vote = record {
  validator_pubkey = key;
  block_hash = block;
  signature = toy.sign key (vote_bytes key block);
}

has_l2_quorum_lem_example : has_l2_quorum toy validators block (vote ∷ vote ∷ []) ≡ (
    verify_votes toy validators block (vote ∷ vote ∷ [])
    >> ok
        (leb (67 * sum_values validators) (100 * voted_stake validators block (vote ∷ vote ∷ []))))
unfolding cmp_str sum_values
has_l2_quorum_lem_example =
    has_l2_quorum_lem toy validators block ((refl, tt), (tt, tt)) (omega arith) (vote ∷ vote ∷ [])
      (omega arith) (omega arith)

abbrev confirmation : SignedConfirmation
confirmation = record {
  confirmer_pubkey = key;
  block_hash = block;
  signature = toy.sign key (confirmation_bytes key block);
}

assessed_l0 : assess_finality toy 5 block (confirmation ∷ []) no_neighbors [] validators ≡ ok l0
unfolding assess_finality has_l2_quorum count_votes total_stake find_confirmation verify_signature
    verify pad cmp_str lookup fold_values
assessed_l0 = refl

abbrev nonces : NonceRegistry
nonces = ((key, 1), block) ∷ []

assessed_l1 :
    assess_finality toy 5 block [] (sync_nonces_before_l1 nonces nonces) [] validators ≡ ok l1
unfolding assess_finality has_l2_quorum count_votes total_stake cmp_str lookup sync_nonces_before_l1
    fold_values count_local count_remote
assessed_l1 = refl

abbrev assessment : Assessment
assessment = record {
  amount = 5;
  block_hash = block;
  confirmations = confirmation ∷ [];
  sync_result = success;
  votes = vote ∷ [];
  registry = validators;
}

-- A latch that holds L0 for the block.
abbrev latch : FinalityLatch
latch = (block, l0) ∷ []

run_grows_example :
    rank (level_of block latch)
    ≤ rank (
        level_of block (
          run toy
            (assessment
              ∷ record assessment { amount = 99_000_000; sync_result = no_neighbors }
              ∷ [])
            latch))
run_grows_example =
    run_grows toy
      (assessment ∷ record assessment { amount = 99_000_000; sync_result = no_neighbors } ∷ [])
      latch block
