-- ===== src/Gossip/Message.antt =====
-- crates/arxia-gossip/src/message.rs and signed_message.rs: the messages, their limits, and the bytes
-- that their sender signs.
mod Encoding
mod Relaying
mod Tests
use arxia.Prelude.{
  ℕ, zero, suc, ◌+◌, ◌*◌, ◌-◌, Bool, true, false, List, [], ◌∷◌, ◌++◌, length, ltb, leb, ◌==◌,
  if◌then◌else◌,
}
use arxia.Prelude.Ord.{Str}
use arxia.Prelude.Words.{Bytes, to_be_bytes}
use arxia.Prelude.Result.{Result, ok, err, ◌>>=◌, ◌>>◌, ensure, map_err}
use arxia.Crypto.{Primitives, CryptoError, invalid_key, signature_invalid, verify}

abbrev max_block_announce_bytes : ℕ
max_block_announce_bytes = 193 * 64

abbrev max_block_announce_hops : ℕ
max_block_announce_hops = 16

abbrev max_nonce_sync_response_entries : ℕ
max_nonce_sync_response_entries = 10_000

pub data MessageError : Type 0 where
  block_announce_too_large : ℕ → MessageError
  nonce_sync_response_too_large : ℕ → MessageError
  block_announce_hops_exceeded : ℕ → MessageError

abbrev pub Entry : Type 0
Entry = Bytes × ℕ × Bytes

pub data GossipMessage : Type 0 where
  block_announce : Bytes → ℕ → GossipMessage
  nonce_sync_request : Str → GossipMessage
  nonce_sync_response : List Entry → GossipMessage
  ping : Str → ℕ → GossipMessage

pub validate : GossipMessage → Result MessageError (Unit {0})
validate (block_announce block_data hops) = do
  ensure (leb hops max_block_announce_hops) (block_announce_hops_exceeded hops)
  ensure (leb (length block_data) max_block_announce_bytes)
      (block_announce_too_large (length block_data))
validate (nonce_sync_response entries) =
    ensure (leb (length entries) max_nonce_sync_response_entries)
      (nonce_sync_response_too_large (length entries))
validate (nonce_sync_request from) = ok tt
validate (ping node_id timestamp) = ok tt

-- Whether the message may be sent on, and the message after the call.
pub decrement_hops_for_relay : GossipMessage → Bool × GossipMessage
decrement_hops_for_relay (block_announce block_data hops) =
    if hops == 0
    then (false, block_announce block_data hops)
    else (ltb 0 (hops - 1), block_announce block_data (hops - 1))
decrement_hops_for_relay (nonce_sync_request from) = (false, nonce_sync_request from)
decrement_hops_for_relay (nonce_sync_response entries) = (false, nonce_sync_response entries)
decrement_hops_for_relay (ping node_id timestamp) = (false, ping node_id timestamp)

-- `GOSSIP_MESSAGE_DOMAIN`, "arxia-gossip-msg-v1"
abbrev gossip_message_domain : Bytes
gossip_message_domain =
    97 ∷ 114 ∷ 120 ∷ 105 ∷ 97 ∷ 45 ∷ 103 ∷ 111 ∷ 115 ∷ 115 ∷ 105 ∷ 112 ∷ 45 ∷ 109 ∷ 115 ∷ 103 ∷ 45
    ∷ 118 ∷ 49 ∷ []

pub encode_entries : List Entry → Bytes
encode_entries [] = []
encode_entries ((hash, nonce, account) ∷ entries) =
    hash ++ (to_be_bytes nonce ++ (account ++ encode_entries entries))

-- What `encode_message_into` writes; the first byte is the tag of the variant.
pub encode_message : GossipMessage → Bytes
encode_message (block_announce block_data hops) =
    0x01 ∷ hops ∷ (to_be_bytes (length block_data) ++ block_data)
encode_message (nonce_sync_request from) = 0x02 ∷ (to_be_bytes (length from) ++ from)
encode_message (nonce_sync_response entries) =
    0x03 ∷ (to_be_bytes (length entries) ++ encode_entries entries)
encode_message (ping node_id timestamp) =
    0x04 ∷ (to_be_bytes timestamp ++ (to_be_bytes (length node_id) ++ node_id))

pub canonical_bytes : GossipMessage → Bytes → Bytes
canonical_bytes message sender_pubkey =
    gossip_message_domain ++ (sender_pubkey ++ encode_message message)

pub data SignedGossipMessageError : Type 0 where
  invalid_signature_length invalid_public_key signature_not_valid : SignedGossipMessageError
  message_invalid : MessageError → SignedGossipMessageError

pub record SignedGossipMessage : Type 0 where
  pub message : GossipMessage
  pub sender_pubkey : Bytes
  pub signature : Bytes

abbrev of_crypto : CryptoError → SignedGossipMessageError
of_crypto (invalid_key f) = invalid_public_key
of_crypto signature_invalid = signature_not_valid

-- `SignedGossipMessage::verify`
unfoldable verify_message :
    Primitives → SignedGossipMessage → Result SignedGossipMessageError (Unit {0})
verify_message c m = do
  map_err message_invalid (validate m.message)
  ensure (length m.signature == 64) invalid_signature_length
  map_err of_crypto
      (verify c m.sender_pubkey (canonical_bytes m.message m.sender_pubkey) m.signature)
