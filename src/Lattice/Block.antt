-- ===== src/Lattice/Block.antt =====
-- crates/arxia-lattice/src/block.rs and validation.rs: the block, its hash, and the checks of one
-- block and of a whole chain.
pub mod Links
use arxia.Prelude.{
  ℕ, zero, suc, ◌+◌, ◌/◌, ◌%◌, Bool, true, false, Option, List, [], ◌∷◌, ◌++◌, length, ltb, ◌==◌,
  if◌then◌else◌,
}
use arxia.Prelude.Ord.{Str, eqb, str_ord}
use arxia.Prelude.Words.{Bytes, wrap_add}
use arxia.Prelude.Result.{Result, ok, ◌>>=◌, ◌>>◌, ok_or, ensure, map_err}
use arxia.Crypto.{Primitives, verify, validate_pubkey_strict, bad_hex, bad_length}
use arxia.Core.{
  ArxiaError, of_crypto, key_error, serialization, hash_mismatch, signature_error, bad_sig_length,
  bad_hash_hex, invalid_genesis, first_nonce, first_not_open, has_previous, nonce_gap,
  hash_chain_broken,
}

pub data BlockType : Type 0 where
  open_block : ℕ → BlockType
  send_block : Str → ℕ → BlockType
  receive_block : Str → BlockType
  revoke_block : Str → BlockType

pub record Block : Type 0 where
  pub account : Str
  pub previous : Str
  pub block_type : BlockType
  pub balance : ℕ
  pub nonce : ℕ
  pub timestamp : ℕ
  pub hash : Str
  pub signature : Bytes

-- The crates that the lattice calls: the primitives, and `serde_json::to_string` on a `BlockType`.
pub record Host : Type 0 where
  pub primitives : Primitives
  pub open primitives use *
  pub block_type_json : BlockType → Option Str

-- The decimal digits that `format!` writes, for a number of at most `fuel` digits.
decimal_digits : ℕ → ℕ → Str
decimal_digits zero n = []
decimal_digits (suc fuel) n =
    let more = decimal_digits fuel (n / 10) ++ ((48 + n % 10) ∷ []) in
    if ltb n 10 then (48 + n) ∷ [] else more

-- A `u64` has at most 20 digits.
pub decimal : ℕ → Str
unfolding decimal_digits
decimal n = decimal_digits 20 n

-- `format!("{}:{}:{}:{}:{}:{}", …)`
pub content : Str → Str → Str → ℕ → ℕ → ℕ → Str
content account previous bt_json balance nonce timestamp =
    account
    ++ (58 ∷ previous
        ++ (58 ∷ bt_json
            ++ (58 ∷ decimal balance ++ (58 ∷ decimal nonce ++ (58 ∷ decimal timestamp)))))

abbrev pub is_open : BlockType → Bool
is_open (open_block n) = true
is_open _ = false

abbrev pub is_empty : Str → Bool
is_empty [] = true
is_empty (x ∷ s) = false

module _ (h : Host) where
  -- `hex::decode(account)` into a `[u8; 32]`
  unfoldable pub decode_account : Str → Result ArxiaError Bytes
  decode_account account = do
    raw ← ok_or (h.hex_decode account) (key_error bad_hex)
    ensure (length raw == 32) (key_error bad_length)
    ok raw

  -- `Block::compute_hash`
  unfoldable pub compute_hash : Str → Str → BlockType → ℕ → ℕ → ℕ → Result ArxiaError Str
  compute_hash account previous block_type balance nonce timestamp = do
    pubkey_bytes ← decode_account account
    map_err of_crypto (validate_pubkey_strict h.primitives pubkey_bytes)
    bt_json ← ok_or (h.block_type_json block_type) serialization
    ok (h.blake3_hex (content account previous bt_json balance nonce timestamp))

  -- The recomputed hash of a block.
  unfoldable pub block_hash : Block → Result ArxiaError Str
  block_hash b = compute_hash b.account b.previous b.block_type b.balance b.nonce b.timestamp

  unfoldable pub verify_block : Block → Result ArxiaError (Unit {0})
  verify_block b = do
    expected_hash ← block_hash b
    ensure (eqb expected_hash b.hash) hash_mismatch
    pubkey_bytes ← decode_account b.account
    map_err of_crypto (validate_pubkey_strict h.primitives pubkey_bytes)
    ensure (length b.signature == 64) (signature_error bad_sig_length)
    hash_bytes ← ok_or (h.hex_decode b.hash) (signature_error bad_hash_hex)
    map_err of_crypto (verify h.primitives pubkey_bytes hash_bytes b.signature)

  -- The loop of `verify_chain_integrity` from index `i` on; `last` is the block at `i - 1`.
  pub verify_links : ℕ → Block → List Block → Result ArxiaError (Unit {0})
  verify_links i last [] = ok tt
  verify_links i last (b ∷ rest) =
      let later = verify_links (i + 1) b rest in
      do
        ensure (b.nonce == wrap_add last.nonce 1) (nonce_gap i (wrap_add last.nonce 1) b.nonce)
        ensure (eqb b.previous last.hash) (hash_chain_broken i)
        verify_block b
        later

  unfoldable pub verify_chain_integrity : List Block → Result ArxiaError (Unit {0})
  verify_chain_integrity [] = ok tt
  verify_chain_integrity (b ∷ rest) = do
    ensure (b.nonce == 1) (invalid_genesis (first_nonce b.nonce))
    ensure (is_open b.block_type) (invalid_genesis first_not_open)
    ensure (is_empty b.previous) (invalid_genesis has_previous)
    verify_block b
    verify_links 1 b rest
