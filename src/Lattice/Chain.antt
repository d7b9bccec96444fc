-- ===== src/Lattice/Chain.antt =====
-- `AccountChain` of crates/arxia-lattice/src/chain.rs. A method takes the vector clock that its
-- caller lends and the time that `now_millis` reads, and returns its result, the chain and the
-- clock after the call, also when it fails.
pub mod Make
pub mod Invariant
pub mod Send
pub mod Receive
pub mod Open
pub mod Run
use arxia.Prelude.{
  ℕ, ◌-◌, true, false, ◌||◌, Option, none, some, List, [], ◌∷◌, ◌++◌, length, take, get_elem?,
  last?, ltb, leb, ◌==◌, if◌then◌else◌,
}
use arxia.Prelude.Ord.{Str, eqb, str_ord}
use arxia.Prelude.Map.{Set, insert, contains_key}
use arxia.Prelude.Words.{Bytes, wrap_add, checked_add}
use arxia.Prelude.Result.{Result, ok, err, panic, ◌>>=◌, ◌>>◌, ok_or, expect, ensure, map_err}
use arxia.Crypto.{validate_pubkey_strict}
use arxia.Core.{
  ArxiaError, of_crypto, hex_decode_error, account_already_open, supply_cap_exceeded, zero_amount,
  self_send_not_allowed, insufficient_balance, wrong_destination, not_send_block, duplicate_receive,
  balance_overflow, max_initial_balance_per_account,
}
use arxia.Lattice.Block.{
  Block, BlockType, open_block, send_block, receive_block, revoke_block, Host, compute_hash,
}
use arxia.Lattice.Clock.{VectorClock, tick}

pub record AccountChain : Type 0 where
  pub signing_key : Bytes
  pub verifying_key : Bytes
  pub public_key_hex : Str
  -- `chain`
  pub blocks : List Block
  pub balance : ℕ
  pub nonce : ℕ
  pub consumed_sources : Set Str

abbrev pub Outcome : Type 0
Outcome = Result ArxiaError Block × AccountChain × VectorClock

-- `&s[..8]`: a panic where the text is shorter, or a character lies across the cut.
unfoldable pub first_eight : Str → Option Str
first_eight s = elim (get_elem? s 8) [
  | none ↦ (if length s == 8 then some (take 8 s) else none)
  | some b ↦ (if ltb b 128 || leb 192 b then some (take 8 s) else none)
]

-- `self.chain.last().map(|b| b.hash.clone()).unwrap_or_default()`
abbrev pub last_hash : List Block → Str
last_hash bs = elim (last? bs) [ none ↦ [] | some b ↦ b.hash ]

module _ (h : Host) where
  -- `AccountChain::new`, from the key that the generator drew.
  unfoldable pub new : Bytes → AccountChain
  new signing_key = record {
    signing_key = signing_key;
    verifying_key = h.public_of signing_key;
    public_key_hex = h.hex_encode (h.public_of signing_key);
    blocks = [];
    balance = 0;
    nonce = 0;
    consumed_sources = [];
  }

  -- What the three methods do once the clock, the balance and the nonce are set: hash the block,
  -- and sign the hash.
  pub make_block : AccountChain → Str → BlockType → ℕ → Result ArxiaError Block
  make_block a previous block_type timestamp = do
    hash ← compute_hash h a.public_key_hex previous block_type a.balance a.nonce timestamp
    hash_bytes ← ok_or (h.hex_decode hash) hex_decode_error
    ok (record {
      account = a.public_key_hex;
      previous = previous;
      block_type = block_type;
      balance = a.balance;
      nonce = a.nonce;
      timestamp = timestamp;
      hash = hash;
      signature = h.sign a.signing_key hash_bytes;
    })

  -- The end of a method: push the block, or return early with what is already set.
  pub push_block : Result ArxiaError Block → AccountChain → VectorClock → Outcome
  push_block (ok b) a v = (ok b, record a { blocks = a.blocks ++ (b ∷ []) }, v)
  push_block (err e) a v = (err e, a, v)
  push_block panic a v = (panic, a, v)

  -- The checks of `open`, up to the slice of the identifier.
  pub open_checks : AccountChain → ℕ → Result ArxiaError Str
  open_checks a initial_balance = do
    ensure (elim a.blocks [ [] ↦ true | _ ∷ _ ↦ false ]) account_already_open
    ensure (leb initial_balance max_initial_balance_per_account)
        (supply_cap_exceeded initial_balance max_initial_balance_per_account)
    map_err of_crypto (validate_pubkey_strict h.primitives a.verifying_key)
    expect (first_eight a.public_key_hex)

  pub open_account : AccountChain → ℕ → VectorClock → ℕ → Outcome
  open_account a initial_balance v now = elim (open_checks a initial_balance) [
    | err e ↦ (err e, a, v)
    | panic ↦ (panic, a, v)
    | ok sid ↦
        let a' : AccountChain = record a { balance = initial_balance; nonce = 1 } in
        push_block (make_block a' [] (open_block initial_balance) now) a' (tick sid v)
  ]

  pub send_checks : AccountChain → Str → ℕ → Result ArxiaError Str
  send_checks a destination amount = do
    if amount == 0 then err zero_amount else ok tt
    if eqb destination a.public_key_hex then err self_send_not_allowed else ok tt
    if ltb a.balance amount then err (insufficient_balance a.balance amount) else ok tt
    expect (first_eight a.public_key_hex)

  pub send : AccountChain → Str → ℕ → VectorClock → ℕ → Outcome
  send a destination amount v now = elim (send_checks a destination amount) [
    | err e ↦ (err e, a, v)
    | panic ↦ (panic, a, v)
    | ok sid ↦
        let a' : AccountChain = record a {
          balance = a.balance - amount;
          nonce = wrap_add a.nonce 1;
        } in
        push_block (make_block a' (last_hash a.blocks) (send_block destination amount) now) a'
          (tick sid v)
  ]

  -- The amount of a send that is addressed to `account`.
  pub addressed_amount : Str → BlockType → Result ArxiaError ℕ
  addressed_amount account (send_block destination amount) =
      if eqb destination account then ok amount else err wrong_destination
  addressed_amount account (open_block n) = err not_send_block
  addressed_amount account (receive_block s) = err not_send_block
  addressed_amount account (revoke_block s) = err not_send_block

  -- The checks of `receive`; the result is the new balance and the identifier.
  pub receive_checks : AccountChain → Block → Result ArxiaError (ℕ × Str)
  receive_checks a source = do
    amount ← addressed_amount a.public_key_hex source.block_type
    if contains_key source.hash a.consumed_sources
        then err (duplicate_receive source.hash)
        else ok tt
    new_balance ← ok_or (checked_add a.balance amount) (balance_overflow a.balance amount)
    ensure (leb new_balance max_initial_balance_per_account)
        (supply_cap_exceeded new_balance max_initial_balance_per_account)
    sid ← expect (first_eight a.public_key_hex)
    ok (new_balance, sid)

  -- The source is marked as consumed after the block is pushed.
  pub consume : Str → Outcome → Outcome
  consume source_hash (ok b, a, v) =
      (ok b, record a { consumed_sources = insert source_hash tt a.consumed_sources }, v)
  consume source_hash (err e, a, v) = (err e, a, v)
  consume source_hash (panic, a, v) = (panic, a, v)

  pub receive : AccountChain → Block → VectorClock → ℕ → Outcome
  receive a source v now = elim (receive_checks a source) [
    | err e ↦ (err e, a, v)
    | panic ↦ (panic, a, v)
    | ok (new_balance, sid) ↦
        let a' : AccountChain = record a { balance = new_balance; nonce = wrap_add a.nonce 1 } in
        consume source.hash (
          push_block (make_block a' (last_hash a.blocks) (receive_block source.hash) now) a'
            (tick sid v))
  ]
