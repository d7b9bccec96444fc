-- ===== src/Lattice/Serialization.antt =====
-- crates/arxia-lattice/src/serialization.rs: the 193-byte form of a block.
pub mod Layout
pub mod RoundTrip
use arxia.Prelude.{
  ℕ, Bool, true, ◌&&◌, [], ◌∷◌, ◌++◌, length, take, drop, get_elem?, replicate, ltb, ◌==◌,
  if◌then◌else◌,
}
use arxia.Prelude.Ord.{Str}
use arxia.Prelude.Words.{Bytes, to_be_bytes, from_be_bytes}
use arxia.Prelude.Result.{Result, ok, err, ◌>>=◌, ◌>>◌, ok_or, expect, ensure}
use arxia.Crypto.{bad_length}
use arxia.Core.{
  ArxiaError, hex_decode_error, key_error, signature_error, bad_sig_length, data_too_short,
  invalid_block_type, compact_block_size,
}
use arxia.Lattice.Block.{
  Block, BlockType, open_block, send_block, receive_block, revoke_block, Host, is_empty,
  compute_hash,
}

pub tag_byte : BlockType → ℕ
tag_byte (open_block n) = 0x00
tag_byte (send_block d n) = 0x01
tag_byte (receive_block s) = 0x02
tag_byte (revoke_block s) = 0x03

-- The number in bytes 89 to 96.
unfoldable pub amount_field : BlockType → ℕ
amount_field (open_block n) = n
amount_field (send_block d n) = n
amount_field (receive_block s) = 0
amount_field (revoke_block s) = 0

-- `iter().all(|&b| b == 0)`
pub all_zero : Bytes → Bool
all_zero [] = true
all_zero (b ∷ bs) = b == 0 && all_zero bs

-- `data[i..i + n]`
abbrev pub slice : ℕ → ℕ → Bytes → Bytes
slice i n xs = take n (drop i xs)

-- A signature of another length is replaced by zeros.
pub signature_field : Bytes → Bytes
signature_field s = if length s == 64 then s else replicate 64 0

pub block_type_of : ℕ → Str → ℕ → Result ArxiaError BlockType
block_type_of tag dest_src amount =
    if tag == 0x00
    then ok (open_block amount)
    else if tag == 0x01
    then ok (send_block dest_src amount)
    else if tag == 0x02
    then ok (receive_block dest_src)
    else if tag == 0x03
    then ok (revoke_block dest_src)
    else err (invalid_block_type tag)

module _ (h : Host) where
  pub hex_decode_32 : Str → Result ArxiaError Bytes
  hex_decode_32 s = do
    v ← ok_or (h.hex_decode s) hex_decode_error
    ensure (length v == 32) (key_error bad_length)
    ok v

  -- The empty text of a genesis is 32 zero bytes.
  pub previous_field : Str → Result ArxiaError Bytes
  previous_field previous =
      if is_empty previous then ok (replicate 32 0) else hex_decode_32 previous

  pub hash_field : BlockType → Result ArxiaError Bytes
  hash_field (open_block n) = ok (replicate 32 0)
  hash_field (send_block destination n) = hex_decode_32 destination
  hash_field (receive_block source_hash) = hex_decode_32 source_hash
  hash_field (revoke_block credential_hash) = hex_decode_32 credential_hash

  pub to_compact_bytes : Block → Result ArxiaError Bytes
  to_compact_bytes b = do
    account_bytes ← hex_decode_32 b.account
    prev ← previous_field b.previous
    field ← hash_field b.block_type
    ok (
        tag_byte b.block_type
        ∷ (account_bytes
            ++ (prev
                ++ (to_be_bytes b.balance
                    ++ (to_be_bytes b.nonce
                        ++ (to_be_bytes b.timestamp
                            ++ (to_be_bytes (amount_field b.block_type)
                                ++ (field ++ signature_field b.signature))))))))

  unfoldable to_compact_bytes_strict : Block → Result ArxiaError Bytes
  to_compact_bytes_strict b = do
    ensure (length b.signature == 64) (signature_error bad_sig_length)
    to_compact_bytes b

  pub previous_of : Bytes → Str
  previous_of prev_raw = if all_zero prev_raw then [] else h.hex_encode prev_raw

  pub from_compact_bytes : Bytes → Result ArxiaError Block
  from_compact_bytes xs = do
    if ltb (length xs) compact_block_size
        then err (data_too_short (length xs) compact_block_size)
        else ok tt
    tag ← expect (get_elem? xs 0)
    balance ← ok_or (from_be_bytes (slice 65 8 xs)) (data_too_short (length xs) compact_block_size)
    nonce ← ok_or (from_be_bytes (slice 73 8 xs)) (data_too_short (length xs) compact_block_size)
    timestamp ←
        ok_or (from_be_bytes (slice 81 8 xs)) (data_too_short (length xs) compact_block_size)
    amount ← ok_or (from_be_bytes (slice 89 8 xs)) (data_too_short (length xs) compact_block_size)
    block_type ← block_type_of tag (h.hex_encode (slice 97 32 xs)) amount
    hash ←
        compute_hash h (h.hex_encode (slice 1 32 xs)) (previous_of (slice 33 32 xs)) block_type
          balance nonce timestamp
    ok (record {
      account = h.hex_encode (slice 1 32 xs);
      previous = previous_of (slice 33 32 xs);
      block_type = block_type;
      balance = balance;
      nonce = nonce;
      timestamp = timestamp;
      hash = hash;
      signature = slice 129 64 xs;
    })
