-- ===== src/Lattice/LedgerTests.antt =====
-- Blocks and a ledger at which the theorems on the ledger and on the form of 193 bytes are applied.
use arxia.Prelude.{
  ◌+◌, ◌≡◌, ◌⊎◌, refl, ◌∙◌, [], ◌∷◌, ◌++◌, length, last?, some, replicate, arith, inl,
}
use arxia.Prelude.Ord.{cmp_str, str_ord}
use arxia.Prelude.Words.{Bytes, wrap_add}
use arxia.Prelude.Map.{lookup}
use arxia.Prelude.Result.{ok}
use arxia.Crypto.Toy.{toy, toy-IsHex, encode, decode, digit, digit_value}
use arxia.Lattice.Block.{Block, open_block, decode_account, content, block_hash, compute_hash}
use arxia.Lattice.Chain.{AccountChain}
use arxia.Lattice.Chain
use arxia.Lattice.Chain.Make.{IsKeyed, make_block-IsMade, IsMade}
use arxia.Lattice.Chain.Invariant.{IsReady, make_block_total}
use arxia.Lattice.Ledger.{Ledger, ingest, add_block, chain_of}
use arxia.Lattice.Ledger
use arxia.Lattice.Ledger.Invariant
use arxia.Lattice.Ledger.Outcome.{Accepted, Refused, add_block_lem}
use arxia.Lattice.Ledger.Preserve.{ingest-IsValid}
use arxia.Lattice.Ledger.Gaps.{open_again_mints}
use arxia.Lattice.Serialization.{amount_field, to_compact_bytes, from_compact_bytes}
use arxia.Lattice.Serialization.RoundTrip.{IsCanonical, to_compact_bytes-from_compact_bytes}
use arxia.Lattice.Tests.{host, secret, fresh, fresh-IsValid, fresh-IsReady, genesis}
use arxia.Crypto.{validate_pubkey_strict}

ingest-IsValid_example :
    Invariant.IsValid host (ingest host Ledger.new (genesis.block ∷ genesis.block ∷ []))
ingest-IsValid_example = ingest-IsValid host (genesis.block ∷ genesis.block ∷ [])

add_block_lem_example :
    Accepted host Ledger.new genesis.block ⊎ Refused host Ledger.new genesis.block
add_block_lem_example = add_block_lem host Ledger.new genesis.block

-- The ledger after the genesis block.
abbrev after_genesis : Ledger
after_genesis = record {
  chains = (encode secret, genesis.block ∷ []) ∷ [];
  send_index = [];
  consumed_sends = [];
  total_supply = 100;
}

-- The account with a balance and the nonce after that of its genesis.
abbrev second : AccountChain
second = record fresh { balance = 40; nonce = 2 }

second-IsKeyed : IsKeyed host second
unfolding Chain.new
second-IsKeyed = record {
  derived = fresh-IsValid.keyed.derived;
  decodes = fresh-IsValid.keyed.decodes;
  signer = fresh-IsValid.keyed.signer;
}

second-IsReady : IsReady host second
unfolding Chain.new
second-IsReady = record {
  key_decodes = fresh-IsReady.key_decodes;
  key_strict = fresh-IsReady.key_strict;
  sid = fresh-IsReady.sid;
  sid_eq = fresh-IsReady.sid_eq;
  json = fresh-IsReady.json;
  digest = fresh-IsReady.digest;
}

again : (b : Block) × (Chain.make_block host second genesis.block.hash (open_block 40) 9 ≡ ok b)
again = make_block_total host second genesis.block.hash (open_block 40) 9 second-IsReady

again-IsMade : IsMade host second genesis.block.hash (open_block 40) 9 again.0
again-IsMade =
    make_block-IsMade host second genesis.block.hash (open_block 40) 9 again.0 second-IsKeyed
      again.1

genesis_on_chain : last? (chain_of second.public_key_hex after_genesis) ≡ some genesis.block
unfolding chain_of lookup cmp_str encode digit Chain.new
genesis_on_chain = refl

again_on_chain : last? (chain_of again.0.account after_genesis) ≡ some genesis.block
again_on_chain = rw again-IsMade.account_eq genesis_on_chain

-- `second` with the nonce that follows the genesis block.
follows_genesis : 2 ≡ wrap_add genesis.block.nonce 1
follows_genesis = rw genesis.made.nonce_eq refl

open_again_mints_example :
    ((add_block host after_genesis again.0).0 ≡ ok tt)
    × ((add_block host after_genesis again.0).1.total_supply ≡ 100 + 40)
open_again_mints_example =
    open_again_mints host after_genesis again.0 genesis.block 40 again-IsMade.verified
      again-IsMade.block_type_eq again_on_chain (again-IsMade.nonce_eq ∙ follows_genesis)
      again-IsMade.previous_eq (omega arith)

abbrev canonical : Block
canonical = record {
  account = encode secret;
  previous = [];
  block_type = open_block 100;
  balance = 100;
  nonce = 1;
  timestamp = 5;
  hash = toy.blake3_hex (content (encode secret) [] (116 ∷ []) 100 1 5);
  signature = replicate 64 9;
}

canonical-IsCanonical : IsCanonical host canonical
unfolding block_hash compute_hash decode_account validate_pubkey_strict encode decode digit
    digit_value amount_field
canonical-IsCanonical = record {
  account_raw = secret;
  account_text = record { text = refl; raw_length = refl; raw_bytes = omega arith };
  previous_raw = replicate 32 0;
  previous_text = inl (refl, refl);
  field_raw = replicate 32 0;
  field_text = refl;
  balance_fits = omega arith;
  nonce_fits = omega arith;
  timestamp_fits = omega arith;
  amount_fits = omega arith;
  signed = refl;
  hashed = refl;
}

to_compact_bytes-from_compact_bytes_example :
    (bytes : Bytes) × (to_compact_bytes host canonical ≡ ok bytes)
    × (length bytes ≡ 193)
    × ((rest : Bytes) → from_compact_bytes host (bytes ++ rest) ≡ ok canonical)
to_compact_bytes-from_compact_bytes_example =
    to_compact_bytes-from_compact_bytes host toy-IsHex canonical canonical-IsCanonical
