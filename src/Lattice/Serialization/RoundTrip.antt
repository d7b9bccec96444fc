-- ===== src/Lattice/Serialization/RoundTrip.antt =====
-- Reading back what `to_compact_bytes` wrote.
use mathlib.Core.List.{append_assoc, append-nil}
use arxia.Prelude.{
  ℕ, ◌+◌, ◌≤◌, ◌≡◌, ◌⊎◌, refl, sym, ap, ◌∙◌, inl, inr, false, [], ◌∷◌, ◌++◌, length, replicate, All,
  arith, some, get_elem?, ltb, false,
}
use arxia.Prelude.Ord.{Str}
use arxia.Prelude.Words.{
  Bytes, IsByte, IsU64, to_be_bytes, from_be_bytes, length-to_be_bytes, from-to_be_bytes,
}
use arxia.Prelude.Result.{ok}
use arxia.Crypto.{IsHex}
use arxia.Lattice.Block.{
  Block, BlockType, open_block, send_block, receive_block, revoke_block, Host, is_empty, block_hash,
  compute_hash,
}
use arxia.Lattice.Serialization.{
  tag_byte, amount_field, all_zero, slice, hex_decode_32, previous_field, hash_field,
  signature_field, to_compact_bytes, block_type_of, previous_of, from_compact_bytes,
}
use arxia.Lattice.Serialization.Layout.{layout, layout-IsRead, length-layout}

not_short : (n : ℕ) → 193 ≤ n → ltb n 193 ≡ false
not_short n le = ground arith

module _ (h : Host) where
  -- A text that is the lower-case hexadecimal of 32 bytes.
  pub record HashText (s : Str) (raw : Bytes) : Type 0 where
    pub text : s ≡ h.hex_encode raw
    pub raw_length : length raw ≡ 32
    pub raw_bytes : All IsByte raw

  -- The text of `previous`: empty, or the hexadecimal of 32 bytes that are not all zero.
  abbrev PreviousText : Str → Bytes → Type 0
  PreviousText s raw =
      ((s ≡ []) × (raw ≡ replicate 32 0)) ⊎ (HashText s raw × (all_zero raw ≡ false))

  abbrev FieldText : BlockType → Bytes → Type 0
  FieldText (open_block n) raw = raw ≡ replicate 32 0
  FieldText (send_block destination n) raw = HashText destination raw
  FieldText (receive_block source_hash) raw = HashText source_hash raw
  FieldText (revoke_block credential_hash) raw = HashText credential_hash raw

  -- A block as the methods of an account make it: lower-case hexadecimal texts, `u64` numbers, a
  -- signature of 64 bytes, and the hash of its contents.
  pub record IsCanonical (b : Block) : Type 0 where
    pub account_raw : Bytes
    pub account_text : HashText b.account account_raw
    pub previous_raw : Bytes
    pub previous_text : PreviousText b.previous previous_raw
    pub field_raw : Bytes
    pub field_text : FieldText b.block_type field_raw
    pub balance_fits : IsU64 b.balance
    pub nonce_fits : IsU64 b.nonce
    pub timestamp_fits : IsU64 b.timestamp
    pub amount_fits : IsU64 (amount_field b.block_type)
    pub signed : length b.signature ≡ 64
    pub hashed : block_hash h b ≡ ok b.hash

  -- The reader, once each of its steps has succeeded.
  read_lem :
      (xs : Bytes) (tag : ℕ) {balance nonce timestamp amount : ℕ} {t : BlockType} {hash : Str}
      → 193 ≤ length xs
      → get_elem? xs 0 ≡ some tag
      → from_be_bytes (slice 65 8 xs) ≡ some balance
      → from_be_bytes (slice 73 8 xs) ≡ some nonce
      → from_be_bytes (slice 81 8 xs) ≡ some timestamp
      → from_be_bytes (slice 89 8 xs) ≡ some amount
      → block_type_of tag (h.hex_encode (slice 97 32 xs)) amount ≡ ok t
      → compute_hash h
          (h.hex_encode (slice 1 32 xs))
          (previous_of h (slice 33 32 xs))
          t
          balance
          nonce
          timestamp
        ≡ ok hash
      → from_compact_bytes h xs
        ≡ ok (record {
          account = h.hex_encode (slice 1 32 xs);
          previous = previous_of h (slice 33 32 xs);
          block_type = t;
          balance = balance;
          nonce = nonce;
          timestamp = timestamp;
          hash = hash;
          signature = slice 129 64 xs;
        })
  unfolding from_compact_bytes
  read_lem xs tag long e0 e1 e2 e3 e4 e5 e6 =
      rw (not_short (length xs) long, e0, e1, e2, e3, e4, e5, e6)

  module _ (x : IsHex h.primitives) where
    decode_32-HashText : (s : Str) (raw : Bytes) → HashText s raw → hex_decode_32 h s ≡ ok raw
    unfolding hex_decode_32
    decode_32-HashText s raw t = rw (t.text, x.hex_decode-hex_encode raw t.raw_bytes, t.raw_length)

    nonempty : (s : Str) (raw : Bytes) → HashText s raw → is_empty s ≡ false
    nonempty [] raw t =
        absurd (omega (arith, x.length-hex_encode raw, ap length t.text, t.raw_length))
    nonempty (c ∷ s) raw t = refl

    previous_trip :
        (s : Str) (raw : Bytes)
        → PreviousText s raw
        → (previous_field h s ≡ ok raw) × (previous_of h raw ≡ s) × (length raw ≡ 32)
    unfolding previous_field previous_of all_zero
    previous_trip s raw (inl (empty, zeros)) = (rw (empty, zeros), rw (zeros, empty), rw zeros)
    previous_trip s raw (inr (t, nonzero)) =
        (rw (nonempty s raw t) (decode_32-HashText s raw t), ground (arith, t.text), t.raw_length)

    field_trip :
        (t : BlockType) (raw : Bytes)
        → FieldText t raw
        → (hash_field h t ≡ ok raw)
          × (block_type_of (tag_byte t) (h.hex_encode raw) (amount_field t) ≡ ok t)
          × (length raw ≡ 32)
    unfolding hash_field block_type_of tag_byte amount_field
    field_trip (open_block n) raw f = (rw f, refl, rw f)
    field_trip (send_block d n) raw f =
        (decode_32-HashText d raw f, ground (arith, f.text), f.raw_length)
    field_trip (receive_block s) raw f =
        (decode_32-HashText s raw f, ground (arith, f.text), f.raw_length)
    field_trip (revoke_block s) raw f =
        (decode_32-HashText s raw f, ground (arith, f.text), f.raw_length)

    -- The bytes that a canonical block is written as.
    abbrev written : Block → Bytes → Bytes → Bytes → Bytes → Bytes
    written b k p f rest =
        layout (tag_byte b.block_type) k p (to_be_bytes b.balance) (to_be_bytes b.nonce)
          (to_be_bytes b.timestamp) (to_be_bytes (amount_field b.block_type)) f b.signature rest

    to_compact_bytes-written :
        (b : Block) (c : IsCanonical b)
        → to_compact_bytes h b ≡ ok (written b c.account_raw c.previous_raw c.field_raw [])
    unfolding to_compact_bytes signature_field
    to_compact_bytes-written b c = rw (
      decode_32-HashText b.account c.account_raw c.account_text,
      (previous_trip b.previous c.previous_raw c.previous_text).0,
      (field_trip b.block_type c.field_raw c.field_text).0,
      c.signed,
      append-nil b.signature,
    )

    length-written :
        (b : Block) (c : IsCanonical b) (rest : Bytes)
        → length (written b c.account_raw c.previous_raw c.field_raw rest) ≡ 193 + length rest
    length-written b c rest = omega (
      arith,
      length-layout (tag_byte b.block_type) c.account_raw c.previous_raw (to_be_bytes b.balance)
          (to_be_bytes b.nonce) (to_be_bytes b.timestamp) (to_be_bytes (amount_field b.block_type))
          c.field_raw b.signature rest,
      c.account_text.raw_length,
      (previous_trip b.previous c.previous_raw c.previous_text).2,
      length-to_be_bytes b.balance,
      length-to_be_bytes b.nonce,
      length-to_be_bytes b.timestamp,
      length-to_be_bytes (amount_field b.block_type),
      (field_trip b.block_type c.field_raw c.field_text).2,
      c.signed,
    )

    written-append :
        (b : Block) (k p f rest : Bytes) → written b k p f [] ++ rest ≡ written b k p f rest
    written-append b k p f rest = simp (append_assoc, append-nil)

    from_compact_bytes-written :
        (b : Block) (c : IsCanonical b) (rest : Bytes)
        → from_compact_bytes h (written b c.account_raw c.previous_raw c.field_raw rest) ≡ ok b
    unfolding block_hash
    from_compact_bytes-written b c rest =
        let p = previous_trip b.previous c.previous_raw c.previous_text in
        let f = field_trip b.block_type c.field_raw c.field_text in
        let xs = written b c.account_raw c.previous_raw c.field_raw rest in
        let r =
          layout-IsRead (tag_byte b.block_type) c.account_raw c.previous_raw (to_be_bytes b.balance)
            (to_be_bytes b.nonce) (to_be_bytes b.timestamp)
            (to_be_bytes (amount_field b.block_type)) c.field_raw b.signature rest
            c.account_text.raw_length p.2 (length-to_be_bytes b.balance)
            (length-to_be_bytes b.nonce) (length-to_be_bytes b.timestamp)
            (length-to_be_bytes (amount_field b.block_type)) f.2 c.signed in
        let long : 193 ≤ length xs = omega (arith, length-written b c rest) in
        let read =
          read_lem xs (tag_byte b.block_type) {balance = b.balance} {nonce = b.nonce}
            {timestamp = b.timestamp} {amount = amount_field b.block_type} {t = b.block_type}
            {hash = b.hash} long r.tag_read
            (rw r.balance_read (from-to_be_bytes b.balance c.balance_fits))
            (rw r.nonce_read (from-to_be_bytes b.nonce c.nonce_fits))
            (rw r.timestamp_read (from-to_be_bytes b.timestamp c.timestamp_fits))
            (rw r.amount_read (from-to_be_bytes (amount_field b.block_type) c.amount_fits))
            (rw r.field_read f.1)
            (rw (r.account_read, r.previous_read, p.1, sym c.account_text.text) c.hashed) in
        read ∙ rw (r.account_read, r.previous_read, r.signature_read, p.1, c.account_text.text)

    -- Where hexadecimal decoding inverts encoding, a canonical block (lower-case hexadecimal texts of
    -- 32 bytes, a `previous` that is not all zero or empty, numbers below 2^64, a signature of 64
    -- bytes, the hash of its contents) is written as exactly 193 bytes, and those, whatever
    -- follows them, are read back as that block.
    pub to_compact_bytes-from_compact_bytes :
        (b : Block)
        → IsCanonical b
        → (bytes : Bytes) × (to_compact_bytes h b ≡ ok bytes)
          × (length bytes ≡ 193)
          × ((rest : Bytes) → from_compact_bytes h (bytes ++ rest) ≡ ok b)
    to_compact_bytes-from_compact_bytes b c = (
      written b c.account_raw c.previous_raw c.field_raw [],
      to_compact_bytes-written b c,
      length-written b c [],
      λ rest.
          rw (written-append b c.account_raw c.previous_raw c.field_raw rest)
            (from_compact_bytes-written b c rest),
    )
