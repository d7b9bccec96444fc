-- ===== src/Consensus/Vote.antt =====
-- crates/arxia-consensus/src/vote.rs: casting a vote, and the two checks of one.
use arxia.Prelude.{ℕ, ◌/◌, ◌%◌, ◌^◌, ◌≡◌, true, [], ◌∷◌, ◌++◌, if◌then◌else◌}
use arxia.Prelude.Ord.{str_ord}
use arxia.Prelude.Map.{Set, contains_key}
use arxia.Prelude.Words.{Bytes}
use arxia.Prelude.Result.{Result, ok, err, ◌>>◌, map_err}
use arxia.Crypto.{Primitives, IsSigner, verify}
use arxia.Core.{ArxiaError, of_crypto, unknown_vote_target}
use arxia.Consensus.Conflict.{VoteOrv}

-- `u64::to_le_bytes`
pub to_le_bytes : ℕ → Bytes
to_le_bytes n =
    n % 256
    ∷ n / 2 ^ 8 % 256
    ∷ n / 2 ^ 16 % 256
    ∷ n / 2 ^ 24 % 256
    ∷ n / 2 ^ 32 % 256
    ∷ n / 2 ^ 40 % 256
    ∷ n / 2 ^ 48 % 256
    ∷ n / 2 ^ 56 % 256
    ∷ []

module _ (c : Primitives) where
  unfoldable compute_vote_hash : Bytes → Bytes → ℕ → ℕ → Bytes
  compute_vote_hash block_hash voter_pubkey delegated_stake nonce =
      c.blake3 (block_hash ++ (voter_pubkey ++ (to_le_bytes delegated_stake ++ to_le_bytes nonce)))

  pub verify_vote : VoteOrv → Result ArxiaError (Unit {0})
  verify_vote vote = map_err of_crypto (
      verify c vote.voter_pubkey
        (compute_vote_hash vote.block_hash vote.voter_pubkey vote.delegated_stake vote.nonce)
        vote.signature)

  verify_vote_known : VoteOrv → Set Bytes → Result ArxiaError (Unit {0})
  verify_vote_known vote known_blocks = do
    verify_vote vote
    if contains_key vote.block_hash known_blocks
        then ok tt
        else err (unknown_vote_target (c.hex_encode vote.block_hash))

  cast_vote : Bytes → Bytes → ℕ → ℕ → VoteOrv
  cast_vote signing_key block_hash delegated_stake nonce =
      let voter_pubkey = c.public_of signing_key in
      record {
        block_hash = block_hash;
        voter_pubkey = voter_pubkey;
        delegated_stake = delegated_stake;
        nonce = nonce;
        signature =
            c.sign signing_key (compute_vote_hash block_hash voter_pubkey delegated_stake nonce);
      }

  -- A vote that is cast with a key whose signatures verify and whose public key is a curve point is
  -- accepted by a node that knows the block, and is refused as a vote for an unknown target by a
  -- node that does not; nothing else refuses it.
  verify_vote_known-cast_vote :
      (signing_key block_hash : Bytes) (delegated_stake nonce : ℕ) (known_blocks : Set Bytes)
      → IsSigner c signing_key
      → c.is_point (c.public_of signing_key) ≡ true
      → verify_vote_known (cast_vote signing_key block_hash delegated_stake nonce) known_blocks ≡ (
          if contains_key block_hash known_blocks
          then ok tt
          else err (unknown_vote_target (c.hex_encode block_hash)))
  unfolding verify_vote_known cast_vote verify_vote verify
  verify_vote_known-cast_vote signing_key block_hash delegated_stake nonce known_blocks s point =
      let hash = compute_vote_hash block_hash (c.public_of signing_key) delegated_stake nonce in
      rw (point, s.verify-sign hash)
