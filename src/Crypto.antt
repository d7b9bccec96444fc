-- ===== src/Crypto.antt =====
-- crates/arxia-crypto/src/ed25519.rs over the crates that it calls: `ed25519_dalek`, `hex` and
-- `blake3` are the fields of `Primitives`.
pub mod Toy
use arxia.Prelude.{
  ℕ, ◌*◌, ◌≡◌, Bool, true, false, Option, none, some, length, ◌==◌, if◌then◌else◌, All,
}
use arxia.Prelude.Ord.{Str}
use arxia.Prelude.Words.{Bytes, IsByte}
use arxia.Prelude.Result.{Result, ok, err, panic, ◌>>=◌, ◌>>◌, ensure}

pub record Primitives : Type 0 where
  -- `hex::decode(s).ok()` and `hex::encode`
  pub hex_decode : Str → Option Bytes
  pub hex_encode : Bytes → Str
  -- `VerifyingKey::from_bytes(k).is_ok()` and `is_weak`
  pub is_point : Bytes → Bool
  pub is_weak : Bytes → Bool
  -- `vk.verify_strict(data, sig).is_ok()` and `vk.verify(data, sig).is_ok()`: key, data, signature
  pub verify_strict : Bytes → Bytes → Bytes → Bool
  pub verify_lenient : Bytes → Bytes → Bytes → Bool
  -- `SigningKey::verifying_key` and `Signer::sign`
  pub public_of : Bytes → Bytes
  pub sign : Bytes → Bytes → Bytes
  -- `blake3::hash(data).to_hex()`
  pub blake3_hex : Bytes → Str
  -- `blake3::hash(data).as_bytes()`
  pub blake3 : Bytes → Bytes

-- What the crates document, as far as theorems rest on it.
pub record IsHex (c : Primitives) : Type 0 where
  pub hex_decode-hex_encode : (b : Bytes) → All IsByte b → c.hex_decode (c.hex_encode b) ≡ some b
  pub length-hex_encode : (b : Bytes) → length (c.hex_encode b) ≡ 2 * length b

-- The digest has 32 bytes.
pub record IsBlake3 (c : Primitives) : Type 0 where
  pub length-blake3 : (b : Bytes) → length (c.blake3 b) ≡ 32

-- `to_hex` writes hexadecimal digits.
pub record IsDigest (c : Primitives) : Type 0 where
  pub blake3_decodes : (b : Bytes) → (h : Bytes) × (c.hex_decode (c.blake3_hex b) ≡ some h)

-- A signature has 64 bytes, and verifies under the key of its signer.
pub record IsSigner (c : Primitives) (key : Bytes) : Type 0 where
  pub length-sign : (data' : Bytes) → length (c.sign key data') ≡ 64
  pub verify-sign :
      (data' : Bytes) → c.verify_strict (c.public_of key) data' (c.sign key data') ≡ true

-- The reasons that `ArxiaError::InvalidKey` carries as texts.
pub data KeyFault : Type 0 where
  bad_hex bad_length not_a_point weak_key : KeyFault
  checksum_too_short checksum_mismatch missing_prefix bad_base58 : KeyFault
  identifier_length : ℕ → KeyFault

-- `arxia_crypto::verify` and `validate_pubkey_strict` return these alone.
pub data CryptoError : Type 0 where
  invalid_key : KeyFault → CryptoError
  signature_invalid : CryptoError

module _ (c : Primitives) where
  unfoldable pub verify : Bytes → Bytes → Bytes → Result CryptoError (Unit {0})
  verify pubkey data' signature = do
    ensure (c.is_point pubkey) (invalid_key not_a_point)
    ensure (c.verify_strict pubkey data' signature) signature_invalid

  unfoldable pub validate_pubkey_strict : Bytes → Result CryptoError (Unit {0})
  validate_pubkey_strict pubkey = do
    ensure (c.is_point pubkey) (invalid_key not_a_point)
    if c.is_weak pubkey then err (invalid_key weak_key) else ok tt
