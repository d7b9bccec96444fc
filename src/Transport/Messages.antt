-- ===== src/Transport/Messages.antt =====
-- crates/arxia-transport/src/traits.rs: messages and their signatures.
mod Signing
mod Tests
use arxia.Prelude.{
  ℕ, ◌/◌, ◌%◌, ◌^◌, Bool, List, [], ◌∷◌, ◌++◌, length, ltb, ◌==◌, if◌then◌else◌, some,
}
use arxia.Prelude.Ord.{Str}
use arxia.Prelude.Words.{Bytes, to_be_bytes}
use arxia.Prelude.Result.{Result, ok, err, panic, ◌>>=◌, ◌>>◌, ok_or, ensure, map_err}
use arxia.Crypto.{Primitives, verify}

-- `TRANSPORT_MESSAGE_DOMAIN`, "arxia-transport-msg-v1"
abbrev transport_message_domain : Bytes
transport_message_domain =
    97 ∷ 114 ∷ 120 ∷ 105 ∷ 97 ∷ 45 ∷ 116 ∷ 114 ∷ 97 ∷ 110 ∷ 115 ∷ 112 ∷ 111 ∷ 114 ∷ 116 ∷ 45 ∷ 109
    ∷ 115 ∷ 103 ∷ 45 ∷ 118 ∷ 49 ∷ []

pub record TransportMessage : Type 0 where
  pub from : Str
  pub to : Str
  pub payload : Bytes
  pub timestamp : ℕ

pub record SignedTransportMessage : Type 0 where
  pub message : TransportMessage
  pub signature : Bytes

pub data TransportError : Type 0 where
  payload_too_large : ℕ → ℕ → TransportError
  disconnected message_lost invalid_from_field transport_signature_invalid : TransportError
  back_pressure : ℕ → TransportError
  other_error : Str → TransportError

-- `u32::to_le_bytes`
pub to_le_bytes_32 : ℕ → Bytes
to_le_bytes_32 n = n % 256 ∷ n / 2 ^ 8 % 256 ∷ n / 2 ^ 16 % 256 ∷ n / 2 ^ 24 % 256 ∷ []

-- `u32::try_from(n)`
abbrev try_u32 : ℕ → Result TransportError ℕ
try_u32 n = if ltb n (2 ^ 32) then ok n else err invalid_from_field

module _ (c : Primitives) where
  pub canonical_bytes : TransportMessage → Result TransportError Bytes
  canonical_bytes msg = do
    from_pk ← ok_or (c.hex_decode msg.from) invalid_from_field
    ensure (length from_pk == 32) invalid_from_field
    to_len ← try_u32 (length msg.to)
    payload_len ← try_u32 (length msg.payload)
    ok (
        transport_message_domain
        ++ (from_pk
            ++ (to_le_bytes_32 to_len
                ++ (msg.to
                    ++ (to_le_bytes_32 payload_len
                        ++ (msg.payload ++ to_be_bytes msg.timestamp))))))

  -- The `expect` of `sign` panics where `canonical_bytes` fails.
  pub sign : Bytes → Str → Bytes → ℕ → Result TransportError SignedTransportMessage
  sign signing_key to payload timestamp =
      let message : TransportMessage = record {
        from = c.hex_encode (c.public_of signing_key);
        to = to;
        payload = payload;
        timestamp = timestamp;
      } in
      elim (canonical_bytes message) [
        | ok canonical ↦ ok (record { message = message; signature = c.sign signing_key canonical })
        | err e ↦ panic
        | panic ↦ panic
      ]

  pub verify_signed : SignedTransportMessage → Result TransportError (Unit {0})
  verify_signed s = do
    from_pk ← ok_or (c.hex_decode s.message.from) invalid_from_field
    ensure (length from_pk == 32) invalid_from_field
    canonical ← canonical_bytes s.message
    map_err (λ e. transport_signature_invalid) (verify c from_pk canonical s.signature)
