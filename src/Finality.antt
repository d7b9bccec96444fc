-- ===== src/Finality.antt =====
-- crates/arxia-finality/src/lib.rs: the level of finality that a block has reached.
pub mod Quorum
pub mod Levels
pub mod Latch
mod Tests
use arxia.Prelude.{
  ℕ, Bool, true, false, ◌&&◌, Option, none, some, List, [], ◌∷◌, ◌++◌, length, ltb, leb, ◌==◌,
  if◌then◌else◌,
}
use arxia.Prelude.Ord.{str_ord, eqb}
use arxia.Prelude.Map.{Map, Set, lookup, insert, contains_key}
use arxia.Prelude.Map.Sums.{fold_values, or_zero}
use arxia.Prelude.Words.{Bytes, saturating_add, saturating_mul}
use arxia.Prelude.Result.{Result, ok, err, ◌>>=◌, ◌>>◌, ensure, map_err}
use arxia.Crypto.{Primitives, CryptoError, invalid_key, signature_invalid, verify}
use arxia.Core.{l0_cap_micro_arx}
use arxia.Gossip.NonceRegistry.{SyncResult, success, mismatch, no_neighbors}

-- `FINALITY_CONFIRMATION_DOMAIN`, "arxia-finality-confirmation-v1"
abbrev finality_confirmation_domain : Bytes
finality_confirmation_domain =
    97 ∷ 114 ∷ 120 ∷ 105 ∷ 97 ∷ 45 ∷ 102 ∷ 105 ∷ 110 ∷ 97 ∷ 108 ∷ 105 ∷ 116 ∷ 121 ∷ 45 ∷ 99 ∷ 111
    ∷ 110 ∷ 102 ∷ 105 ∷ 114 ∷ 109 ∷ 97 ∷ 116 ∷ 105 ∷ 111 ∷ 110 ∷ 45 ∷ 118 ∷ 49 ∷ []

-- `FINALITY_VALIDATOR_VOTE_DOMAIN`, "arxia-finality-validator-vote-v1"
abbrev finality_validator_vote_domain : Bytes
finality_validator_vote_domain =
    97 ∷ 114 ∷ 120 ∷ 105 ∷ 97 ∷ 45 ∷ 102 ∷ 105 ∷ 110 ∷ 97 ∷ 108 ∷ 105 ∷ 116 ∷ 121 ∷ 45 ∷ 118 ∷ 97
    ∷ 108 ∷ 105 ∷ 100 ∷ 97 ∷ 116 ∷ 111 ∷ 114 ∷ 45 ∷ 118 ∷ 111 ∷ 116 ∷ 101 ∷ 45 ∷ 118 ∷ 49 ∷ []

pub data FinalityError : Type 0 where
  invalid_signature_length invalid_public_key bad_signature : FinalityError

pub data FinalityLevel : Type 0 where
  pending l0 l1 l2 : FinalityLevel

pub record SignedConfirmation : Type 0 where
  pub confirmer_pubkey : Bytes
  pub block_hash : Bytes
  pub signature : Bytes

pub record SignedValidatorVote : Type 0 where
  pub validator_pubkey : Bytes
  pub block_hash : Bytes
  pub signature : Bytes

abbrev pub confirmation_bytes : Bytes → Bytes → Bytes
confirmation_bytes confirmer_pubkey block_hash =
    finality_confirmation_domain ++ (confirmer_pubkey ++ block_hash)

abbrev pub vote_bytes : Bytes → Bytes → Bytes
vote_bytes validator_pubkey block_hash =
    finality_validator_vote_domain ++ (validator_pubkey ++ block_hash)

abbrev pub of_crypto : CryptoError → FinalityError
of_crypto (invalid_key f) = invalid_public_key
of_crypto signature_invalid = bad_signature

-- `ValidatorRegistry`, its `insert`, `stake_of` and `contains` being those of the map
abbrev pub ValidatorRegistry : Type 0
ValidatorRegistry = Map Bytes ℕ

pub total_stake : ValidatorRegistry → ℕ
total_stake registry = fold_values 0 registry

abbrev pub is_success : SyncResult → Bool
is_success success = true
is_success (mismatch n) = false
is_success no_neighbors = false

-- The votes that the loop verifies.
abbrev pub is_eligible : ValidatorRegistry → Bytes → SignedValidatorVote → Bool
is_eligible registry block_hash vote =
    eqb vote.block_hash block_hash && contains_key vote.validator_pubkey registry

-- `counted_validators` and `accepted_stake`
abbrev pub Count : Type 0
Count = Set Bytes × ℕ

-- A verified vote counts its validator once.
pub accept : ValidatorRegistry → SignedValidatorVote → Count → Count
accept registry vote (counted, accepted) =
    if contains_key vote.validator_pubkey counted then (counted, accepted) else (
      insert vote.validator_pubkey tt counted,
      saturating_add accepted (or_zero (lookup vote.validator_pubkey registry)),
    )

module _ (c : Primitives) where
  pub verify_signature : Bytes → Bytes → Bytes → Result FinalityError (Unit {0})
  verify_signature pubkey canonical signature = do
    ensure (length signature == 64) invalid_signature_length
    map_err of_crypto (verify c pubkey canonical signature)

  -- `SignedConfirmation::verify`
  abbrev pub verify_confirmation : SignedConfirmation → Result FinalityError (Unit {0})
  verify_confirmation s =
      verify_signature s.confirmer_pubkey (confirmation_bytes s.confirmer_pubkey s.block_hash)
        s.signature

  -- `SignedValidatorVote::verify`
  abbrev pub verify_vote : SignedValidatorVote → Result FinalityError (Unit {0})
  verify_vote s =
      verify_signature s.validator_pubkey (vote_bytes s.validator_pubkey s.block_hash) s.signature

  -- The loop over the votes.
  pub count_votes :
      ValidatorRegistry → Bytes → List SignedValidatorVote → Count → Result FinalityError ℕ
  count_votes registry block_hash [] count = ok count.1
  count_votes registry block_hash (vote ∷ votes) count =
      elim (is_eligible registry block_hash vote) [
        | false ↦ count_votes registry block_hash votes count
        | true ↦ do
          verify_vote vote
          count_votes registry block_hash votes (accept registry vote count)
      ]

  -- The loop over the confirmations: whether it returns `L0`.
  pub find_confirmation :
      ValidatorRegistry → Bytes → List SignedConfirmation → Set Bytes → Result FinalityError Bool
  find_confirmation registry block_hash [] seen_confirmer = ok false
  find_confirmation registry block_hash (conf ∷ confirmations) seen_confirmer =
      elim (eqb conf.block_hash block_hash && contains_key conf.confirmer_pubkey registry) [
        | false ↦ find_confirmation registry block_hash confirmations seen_confirmer
        | true ↦ do
          verify_confirmation conf
          elim (contains_key conf.confirmer_pubkey seen_confirmer) [
            | true ↦ find_confirmation registry block_hash confirmations seen_confirmer
            | false ↦ ok true
          ]
      ]

  -- Whether the votes reach L2: the block under `if total_stake > 0`.
  pub has_l2_quorum :
      ValidatorRegistry → Bytes → List SignedValidatorVote → Result FinalityError Bool
  has_l2_quorum registry block_hash votes =
      if ltb 0 (total_stake registry)
      then (do
        accepted_stake ← count_votes registry block_hash votes ([], 0)
        ok (leb (saturating_mul (total_stake registry) 67) (saturating_mul accepted_stake 100)))
      else ok false

  pub assess_finality :
      ℕ
      → Bytes
      → List SignedConfirmation
      → SyncResult
      → List SignedValidatorVote
      → ValidatorRegistry
      → Result FinalityError FinalityLevel
  assess_finality amount block_hash confirmations sync_result votes registry = do
    reached ← has_l2_quorum registry block_hash votes
    if reached
        then ok l2
        else if is_success sync_result
        then ok l1
        else if leb amount l0_cap_micro_arx
        then (do
          found ← find_confirmation registry block_hash confirmations []
          ok (if found then l0 else pending))
        else ok pending

-- The order that `PartialOrd` derives.
abbrev pub rank : FinalityLevel → ℕ
rank pending = 0
rank l0 = 1
rank l1 = 2
rank l2 = 3

-- `std::cmp::max`
abbrev pub max_level : FinalityLevel → FinalityLevel → FinalityLevel
max_level a b = if leb (rank a) (rank b) then b else a

abbrev pub FinalityLatch : Type 0
FinalityLatch = Map Bytes FinalityLevel

-- `unwrap_or(FinalityLevel::Pending)`
abbrev pub or_pending : Option FinalityLevel → FinalityLevel
or_pending none = pending
or_pending (some l) = l

-- The arguments of one assessment.
pub record Assessment : Type 0 where
  pub amount : ℕ
  pub block_hash : Bytes
  pub confirmations : List SignedConfirmation
  pub sync_result : SyncResult
  pub votes : List SignedValidatorVote
  pub registry : ValidatorRegistry

-- The level, and the latch with it; an error leaves the latch as it is.
pub assess_monotonic :
    Primitives → Assessment → FinalityLatch → Result FinalityError (FinalityLevel × FinalityLatch)
assess_monotonic c a latch = do
  snapshot ←
      assess_finality c a.amount a.block_hash a.confirmations a.sync_result a.votes a.registry
  let latched = max_level (or_pending (lookup a.block_hash latch)) snapshot
  ok (latched, insert a.block_hash latched latch)
