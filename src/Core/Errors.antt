-- ===== src/Core/Errors.antt =====
-- crates/arxia-core/src/error.rs. A text inside an error is a constructor that says which text it
-- is, or is left out where a library made it.
use arxia.Prelude.{ℕ}
use arxia.Prelude.Ord.{Str}
use arxia.Prelude.Int.{ℤ}
use arxia.Crypto.{CryptoError, KeyFault, invalid_key, signature_invalid}

-- The texts of `InvalidGenesis`.
pub data GenesisFault : Type 0 where
  first_not_open has_previous : GenesisFault
  first_nonce : ℕ → GenesisFault

-- The texts of `SignatureInvalid`.
pub data SignatureFault : Type 0 where
  bad_sig_length bad_hash_hex not_verified : SignatureFault

pub data ArxiaError : Type 0 where
  invalid_block_type : ℕ → ArxiaError
  data_too_short : ℕ → ℕ → ArxiaError
  hash_mismatch : ArxiaError
  signature_error : SignatureFault → ArxiaError
  insufficient_balance : ℕ → ℕ → ArxiaError
  zero_amount : ArxiaError
  nonce_gap : ℕ → ℕ → ℕ → ArxiaError
  hash_chain_broken : ℕ → ArxiaError
  invalid_genesis : GenesisFault → ArxiaError
  wrong_destination : ArxiaError
  not_send_block : ArxiaError
  double_spend : ℕ → ArxiaError
  transport sync_timeout no_neighbors : ArxiaError
  hex_decode_error : ArxiaError
  serialization : ArxiaError
  key_error : KeyFault → ArxiaError
  account_already_open : ArxiaError
  supply_cap_exceeded : ℕ → ℕ → ArxiaError
  duplicate_receive : Str → ArxiaError
  nonce_conflict : Str → ℕ → ℕ → ArxiaError
  negative_balance : Str → ℤ → ArxiaError
  balance_overflow : ℕ → ℕ → ArxiaError
  self_send_not_allowed : ArxiaError
  unknown_vote_target : Str → ArxiaError
  ineligible_conflict_block_type : Str → Str → ArxiaError
  unknown_source_send : Str → ArxiaError

-- The errors that `arxia_crypto` returns, as `ArxiaError`.
abbrev pub of_crypto : CryptoError → ArxiaError
of_crypto (invalid_key f) = key_error f
of_crypto signature_invalid = signature_error not_verified
