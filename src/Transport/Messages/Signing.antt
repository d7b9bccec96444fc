-- ===== src/Transport/Messages/Signing.antt =====
-- A message that is signed verifies.
use arxia.Prelude.{ℕ, ◌^◌, ◌≡◌, true, length, ltb, ◌++◌, arith, All, if◌then◌else◌}
use arxia.Prelude.Ord.{Str}
use arxia.Prelude.Words.{Bytes, IsByte, to_be_bytes}
use arxia.Prelude.Result.{Result, ok, panic, ◌>>=◌}
use arxia.Crypto.{Primitives, IsHex, IsSigner, verify}
use arxia.Transport.Messages.{
  transport_message_domain, to_le_bytes_32, TransportError, canonical_bytes, sign, verify_signed,
}

-- A key whose signatures verify, and whose public key is 32 bytes that are a curve point.
pub record IsKey (c : Primitives) (key : Bytes) : Type 0 where
  pub signer : IsSigner c key
  pub bytes : All IsByte (c.public_of key)
  pub long : length (c.public_of key) ≡ 32
  pub point : c.is_point (c.public_of key) ≡ true

-- The two calls after one another.
abbrev pub sign_and_verify : Primitives → Bytes → Str → Bytes → ℕ → Result TransportError (Unit {0})
sign_and_verify c key to payload timestamp = sign c key to payload timestamp >>= verify_signed c

-- Signing with a proper key returns a message that verifies where the address and the payload are
-- shorter than 2^32 bytes; where one is not, the `expect` of `sign` panics.
pub verify_signed-sign :
    (c : Primitives) (key : Bytes) (to : Str) (payload : Bytes) (timestamp : ℕ)
    → IsHex c
    → IsKey c key
    → sign_and_verify c key to payload timestamp ≡ (
        if ltb (length to) (2 ^ 32)
        then (if ltb (length payload) (2 ^ 32) then ok tt else panic)
        else panic)
unfolding sign verify_signed canonical_bytes verify
verify_signed-sign c key to payload timestamp x k = ground (
  arith,
  x.hex_decode-hex_encode (c.public_of key) k.bytes,
  k.long,
  k.point,
  k.signer.verify-sign (
      transport_message_domain
      ++ (c.public_of key
          ++ (to_le_bytes_32 (length to)
              ++ (to ++ (to_le_bytes_32 (length payload) ++ (payload ++ to_be_bytes timestamp)))))),
)
