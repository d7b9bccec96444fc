-- ===== src/Lattice/Chain/Invariant.antt =====
-- The invariant of an account chain, and how one more block keeps it.
use arxia.Prelude.{
  ℕ, ◌≤◌, ◌<◌, ◌≡◌, [], ◌∷◌, ◌++◌, Option, some, none, last?, arith, Option-cases, inl, inr,
  last?-append, sym,
}
use arxia.Prelude.Ord.{Str, str_ord}
use arxia.Prelude.Words.{wrap_add}
use arxia.Prelude.Result.{ok}
use arxia.Crypto.{IsDigest, validate_pubkey_strict}
use arxia.Core.{max_initial_balance_per_account}
use arxia.Lattice.Block.{
  Block, BlockType, Host, verify_chain_integrity, decode_account, compute_hash, content,
}
use arxia.Lattice.Block.Links.{Follows, verify_chain_integrity-append}
use arxia.Lattice.Chain.{AccountChain, make_block, last_hash, first_eight}
use arxia.Lattice.Chain.Make.{IsKeyed, IsMade}

-- The nonce and the balance are those of the last block, and zero before the first.
abbrev IsTip : Option Block → ℕ → ℕ → Type 0
IsTip none nonce balance = (nonce ≡ 0) × (balance ≡ 0)
IsTip (some b) nonce balance = (nonce ≡ b.nonce) × (balance ≡ b.balance)

module _ (h : Host) where
  pub record IsValid (a : AccountChain) : Type 0 where
    pub keyed : IsKeyed h a
    pub intact : verify_chain_integrity h a.blocks ≡ ok tt
    pub tip : IsTip (last? a.blocks) a.nonce a.balance
    pub within : a.balance ≤ max_initial_balance_per_account

  -- What lets every hash be computed: a key that passes the strict check, a serializer that does not
  -- fail, and digests in hexadecimal.
  pub record IsReady (a : AccountChain) : Type 0 where
    pub key_decodes : decode_account h a.public_key_hex ≡ ok (h.public_of a.signing_key)
    pub key_strict : validate_pubkey_strict h.primitives (h.public_of a.signing_key) ≡ ok tt
    pub sid : Str
    pub sid_eq : first_eight a.public_key_hex ≡ some sid
    pub json : (t : BlockType) → (s : Str) × (h.block_type_json t ≡ some s)
    pub digest : IsDigest h.primitives

  -- A block that was made over the new balance and nonce, and follows the last one, keeps the
  -- invariant when it is pushed.
  pub pushed-IsValid :
      (a : AccountChain) (previous : Str) (t : BlockType) (now : ℕ) (b : Block)
      → IsKeyed h a
      → verify_chain_integrity h a.blocks ≡ ok tt
      → a.balance ≤ max_initial_balance_per_account
      → IsMade h a previous t now b
      → Follows (last? a.blocks) b
      → IsValid (record a { blocks = a.blocks ++ (b ∷ []) })
  pushed-IsValid a previous t now b k e w m f = record {
    keyed = record { derived = k.derived; decodes = k.decodes; signer = k.signer };
    intact = verify_chain_integrity-append h a.blocks b e m.verified f;
    tip = rw (last?-append a.blocks b) (sym m.nonce_eq, sym m.balance_eq);
    within = w;
  }

  -- With what `IsReady` says, `make_block` returns a block.
  pub make_block_total :
      (a : AccountChain) (previous : Str) (t : BlockType) (now : ℕ)
      → IsReady a
      → (b : Block) × (make_block h a previous t now ≡ ok b)
  unfolding make_block compute_hash
  make_block_total a previous t now r =
      let (bt_json, j) = r.json t in
      let hash : Str =
        h.blake3_hex (content a.public_key_hex previous bt_json a.balance a.nonce now) in
      let (hash_bytes, d) =
        r.digest.blake3_decodes (content a.public_key_hex previous bt_json a.balance a.nonce now) in
      (
        record {
          account = a.public_key_hex;
          previous = previous;
          block_type = t;
          balance = a.balance;
          nonce = a.nonce;
          timestamp = now;
          hash = hash;
          signature = h.sign a.signing_key hash_bytes;
        },
        ground (arith, r.key_decodes, r.key_strict, j, d),
      )

-- An account with a balance has a block.
pub last_of_pos :
    (a : AccountChain)
    → IsTip (last? a.blocks) a.nonce a.balance
    → 0 < a.balance
    → (last : Block) × (last? a.blocks ≡ some last)
last_of_pos a tip pos = elim (Option-cases (last? a.blocks)) [
  | inl e ↦ absurd (omega (arith, (rw e at tip).1))
  | inr found ↦ found
]

-- The methods number and link a block so that it follows the last one.
pub last-Follows :
    (a : AccountChain) (last b : Block)
    → IsTip (last? a.blocks) a.nonce a.balance
    → last? a.blocks ≡ some last
    → b.nonce ≡ wrap_add a.nonce 1
    → b.previous ≡ last_hash a.blocks
    → Follows (last? a.blocks) b
last-Follows a last b tip e n p = ground arith
