-- ===== src/Relay/Signed.antt =====
-- crates/arxia-relay/src/receipt.rs and slashing.rs: the two claims that are signed about a relay.
use arxia.Prelude.{ℕ, [], ◌∷◌, ◌++◌, length, leb, ◌==◌}
use arxia.Prelude.Ord.{Str}
use arxia.Prelude.Words.{Bytes, to_be_bytes}
use arxia.Prelude.Result.{Result, ok, ◌>>=◌, ◌>>◌, ok_or, ensure, map_err}
use arxia.Crypto.{Primitives, CryptoError, invalid_key, signature_invalid, verify}

-- `RELAY_RECEIPT_DOMAIN`, "arxia-relay-receipt-v1"
abbrev relay_receipt_domain : Bytes
relay_receipt_domain =
    97 ∷ 114 ∷ 120 ∷ 105 ∷ 97 ∷ 45 ∷ 114 ∷ 101 ∷ 108 ∷ 97 ∷ 121 ∷ 45 ∷ 114 ∷ 101 ∷ 99 ∷ 101 ∷ 105
    ∷ 112 ∷ 116 ∷ 45 ∷ 118 ∷ 49 ∷ []

-- `SLASHING_PROOF_DOMAIN`, "arxia-relay-slash-v1"
abbrev slashing_proof_domain : Bytes
slashing_proof_domain =
    97 ∷ 114 ∷ 120 ∷ 105 ∷ 97 ∷ 45 ∷ 114 ∷ 101 ∷ 108 ∷ 97 ∷ 121 ∷ 45 ∷ 115 ∷ 108 ∷ 97 ∷ 115 ∷ 104
    ∷ 45 ∷ 118 ∷ 49 ∷ []

abbrev max_hops_per_receipt : ℕ
max_hops_per_receipt = 16

pub data RelayReceiptError : Type 0 where
  invalid_relay_id invalid_message_hash invalid_signature_length : RelayReceiptError
  invalid_public_key receipt_signature_invalid wrong_relay_id duplicate_receipt : RelayReceiptError
  hop_count_too_high : ℕ → RelayReceiptError

pub data SlashingError : Type 0 where
  invalid_target_relay_id proof_signature_invalid invalid_observer_pubkey : SlashingError
  invalid_proof_length target_mismatch negative_penalty : SlashingError

pub record RelayReceipt : Type 0 where
  pub relay_id : Str
  pub message_hash : Str
  pub timestamp : ℕ
  pub signature : Bytes
  pub hop_count : ℕ

pub record SlashingProof : Type 0 where
  pub observer_pubkey : Bytes
  pub target_relay_id : Str
  pub reason : Str
  pub signature : Bytes

abbrev receipt_error : CryptoError → RelayReceiptError
receipt_error (invalid_key f) = invalid_public_key
receipt_error signature_invalid = receipt_signature_invalid

abbrev slashing_error : CryptoError → SlashingError
slashing_error (invalid_key f) = invalid_observer_pubkey
slashing_error signature_invalid = proof_signature_invalid

module _ (c : Primitives) where
  -- `decode_hex_32(s).map_err(|_| e)`
  unfoldable pub decode_hex_32 : {E : Type 0} → Str → E → Result E Bytes
  decode_hex_32 s e = do v ← ok_or (c.hex_decode s) e; ensure (length v == 32) e; ok v

  -- `RelayReceipt::canonical_message`
  unfoldable pub receipt_message : RelayReceipt → Result RelayReceiptError Bytes
  receipt_message r = do
    relay_pub ← decode_hex_32 r.relay_id invalid_relay_id
    msg_hash ← decode_hex_32 r.message_hash invalid_message_hash
    ok (
        relay_receipt_domain
        ++ (relay_pub ++ (msg_hash ++ (to_be_bytes r.timestamp ++ (r.hop_count ∷ [])))))

  -- `RelayReceipt::verify`
  unfoldable pub verify_receipt : RelayReceipt → Result RelayReceiptError (Unit {0})
  verify_receipt r = do
    ensure (leb r.hop_count max_hops_per_receipt) (hop_count_too_high r.hop_count)
    msg ← receipt_message r
    pk ← decode_hex_32 r.relay_id invalid_relay_id
    ensure (length r.signature == 64) invalid_signature_length
    map_err receipt_error (verify c pk msg r.signature)

  -- `SlashingProof::canonical_message`
  unfoldable pub slashing_message : SlashingProof → Result SlashingError Bytes
  slashing_message p = do
    target ← decode_hex_32 p.target_relay_id invalid_target_relay_id
    ok (
        slashing_proof_domain
        ++ (p.observer_pubkey ++ (target ++ (to_be_bytes (length p.reason) ++ p.reason))))

  -- `SlashingProof::verify`
  unfoldable pub verify_proof : SlashingProof → Result SlashingError (Unit {0})
  verify_proof p = do
    msg ← slashing_message p
    ensure (length p.signature == 64) invalid_proof_length
    map_err slashing_error (verify c p.observer_pubkey msg p.signature)
