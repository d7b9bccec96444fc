-- ===== src/Lattice/Chain/Make.antt =====
-- The block that `make_block` returns: its fields, and that it passes `verify_block`.
use arxia.Prelude.{ℕ, ◌≡◌, some, arith, Option-cases, inl, inr}
use arxia.Prelude.Ord.{Str, eqb_refl, str_ord}
use arxia.Prelude.Words.{Bytes}
use arxia.Prelude.Result.{ok, Result-cases}
use arxia.Crypto.{IsSigner, verify, validate_pubkey_strict}
use arxia.Lattice.Block.{
  Block, BlockType, Host, compute_hash, block_hash, decode_account, verify_block,
}
use arxia.Lattice.Chain.{AccountChain, make_block}

module _ (h : Host) where
  -- The public key, in both of its forms, is that of the signing key.
  pub record IsKeyed (a : AccountChain) : Type 0 where
    pub derived : a.verifying_key ≡ h.public_of a.signing_key
    pub decodes : h.hex_decode a.public_key_hex ≡ some (h.public_of a.signing_key)
    pub signer : IsSigner h.primitives a.signing_key

  -- What a made block says.
  pub record IsMade (a : AccountChain) (previous : Str) (t : BlockType) (now : ℕ) (b : Block)
      : Type 0 where
    pub account_eq : b.account ≡ a.public_key_hex
    pub previous_eq : b.previous ≡ previous
    pub block_type_eq : b.block_type ≡ t
    pub balance_eq : b.balance ≡ a.balance
    pub nonce_eq : b.nonce ≡ a.nonce
    pub timestamp_eq : b.timestamp ≡ now
    pub verified : verify_block h b ≡ ok tt

  compute_hash_key :
      (account previous : Str) (t : BlockType) (balance nonce now : ℕ) (hash key : Str)
      → h.hex_decode account ≡ some key
      → compute_hash h account previous t balance nonce now ≡ ok hash
      → (decode_account h account ≡ ok key) × (validate_pubkey_strict h.primitives key ≡ ok tt)
  unfolding compute_hash decode_account
  compute_hash_key account previous t balance nonce now hash key d e = ground arith

  -- A hash that is computed over the fields, and a signature over it, verify.
  made-verified :
      (b : Block) (key sk hash_bytes : Bytes)
      → block_hash h b ≡ ok b.hash
      → decode_account h b.account ≡ ok key
      → validate_pubkey_strict h.primitives key ≡ ok tt
      → key ≡ h.public_of sk
      → IsSigner h.primitives sk
      → h.hex_decode b.hash ≡ some hash_bytes
      → b.signature ≡ h.sign sk hash_bytes
      → verify_block h b ≡ ok tt
  unfolding verify_block verify validate_pubkey_strict
  made-verified b key sk hash_bytes e d v k s x g =
      ground (arith, eqb_refl b.hash, s.length-sign hash_bytes, s.verify-sign hash_bytes)

  pub make_block-IsMade :
      (a : AccountChain) (previous : Str) (t : BlockType) (now : ℕ) (b : Block)
      → IsKeyed a
      → make_block h a previous t now ≡ ok b
      → IsMade a previous t now b
  unfolding make_block block_hash
  make_block-IsMade a previous t now b k e =
      elim (Result-cases (compute_hash h a.public_key_hex previous t a.balance a.nonce now)) [
        | inr p ↦ absurd (ground arith)
        | inl (hash, p) ↦ elim (Option-cases (h.hex_decode hash)) [
          | inl q ↦ absurd (ground arith)
          | inr (hash_bytes, q) ↦
              let facts =
                compute_hash_key a.public_key_hex previous t a.balance a.nonce now hash
                  (h.public_of a.signing_key) k.decodes p in
              record {
                account_eq = ground arith;
                previous_eq = ground arith;
                block_type_eq = ground arith;
                balance_eq = ground arith;
                nonce_eq = ground arith;
                timestamp_eq = ground arith;
                verified = ground (
                  arith,
                  made-verified b (h.public_of a.signing_key) a.signing_key hash_bytes,
                  k.signer,
                  facts,
                );
              }
        ]
      ]
