-- ===== src/Lattice/Chain/Open.antt =====
-- `AccountChain::open` on every branch, and the account that `new` makes.
use arxia.Prelude.{
  ℕ, ◌≡◌, refl, List, [], ◌∷◌, Option, some, none, arith, Option-cases, inl, inr, leb,
  if◌then◌else◌, All,
}
use arxia.Prelude.Ord.{str_ord}
use arxia.Prelude.Words.{IsByte, Bytes}
use arxia.Prelude.Result.{ok, err}
use arxia.Crypto.{IsHex, IsSigner}
use arxia.Core.{
  ArxiaError, account_already_open, supply_cap_exceeded, max_initial_balance_per_account,
}
use arxia.Lattice.Block.{Block, open_block, Host, verify_chain_integrity}
use arxia.Lattice.Clock.{VectorClock, tick}
use arxia.Lattice.Chain.{AccountChain, push_block, open_account, open_checks, new}
use arxia.Lattice.Chain.Make.{IsKeyed, IsMade, make_block-IsMade}
use arxia.Lattice.Chain.Invariant.{IsValid, IsReady, pushed-IsValid, make_block_total}

-- Why an open is refused.
abbrev pub open_error : List Block → ℕ → Option ArxiaError
open_error (b ∷ bs) initial_balance = some account_already_open
open_error [] initial_balance =
    if leb initial_balance max_initial_balance_per_account
    then none
    else some (supply_cap_exceeded initial_balance max_initial_balance_per_account)

module _ (h : Host) where
  -- The state over which the genesis block is made.
  abbrev funded : AccountChain → ℕ → AccountChain
  funded a initial_balance = record a { balance = initial_balance; nonce = 1 }

  -- An open that no reason refuses starts the chain with an open block of nonce 1 and no
  -- predecessor, sets the balance, and establishes the invariant.
  pub record Opened (a : AccountChain) (n : ℕ) (v v' : VectorClock) (now : ℕ) : Type 0 where
    pub block : Block
    pub outcome :
        open_account h a n v now ≡ (ok block, record (funded a n) { blocks = block ∷ [] }, v')
    pub made : IsMade h (funded a n) [] (open_block n) now block
    pub valid : IsValid h (record (funded a n) { blocks = block ∷ [] })

  pub open_refuses :
      (a : AccountChain) (n : ℕ) (v : VectorClock) (now : ℕ) (e : ArxiaError)
      → open_error a.blocks n ≡ some e
      → open_account h a n v now ≡ (err e, a, v)
  unfolding open_account open_checks
  open_refuses a n v now e p = ground arith

  open_accepts :
      (a : AccountChain) (n : ℕ) (v : VectorClock) (now : ℕ)
      → IsKeyed h a
      → (r : IsReady h a) → open_error a.blocks n ≡ none
      → Opened a n v (tick r.sid v) now
  unfolding open_account open_checks push_block
  open_accepts a n v now k r e =
      let fresh : AccountChain = record a { blocks = [] } in
      let empty : a.blocks ≡ [] = ground arith in
      let a' : AccountChain = funded a n in
      let k' : IsKeyed h a' = record {
        derived = k.derived;
        decodes = k.decodes;
        signer = k.signer;
      } in
      let r' : IsReady h a' = record {
        key_decodes = r.key_decodes;
        key_strict = r.key_strict;
        sid = r.sid;
        sid_eq = r.sid_eq;
        json = r.json;
        digest = r.digest;
      } in
      let (b, made) = make_block_total h a' [] (open_block n) now r' in
      let m = make_block-IsMade h a' [] (open_block n) now b k' made in
      let g : AccountChain = record (funded a n) { blocks = [] } in
      record {
        block = b;
        outcome = ground (arith, r.sid_eq, r.key_strict, k.derived, made);
        made = m;
        valid =
            pushed-IsValid h g [] (open_block n) now b
              (record { derived = k.derived; decodes = k.decodes; signer = k.signer })
              (unfold verify_chain_integrity in refl) (ground arith)
              (record {
                account_eq = m.account_eq;
                previous_eq = m.previous_eq;
                block_type_eq = m.block_type_eq;
                balance_eq = m.balance_eq;
                nonce_eq = m.nonce_eq;
                timestamp_eq = m.timestamp_eq;
                verified = m.verified;
              })
              (m.nonce_eq, rw m.block_type_eq, m.previous_eq);
      }

  -- What an open leads to, by the reason to refuse it, if there is one.
  abbrev pub OpenOutcome :
      AccountChain → ℕ → VectorClock → VectorClock → ℕ → Option ArxiaError → Type 0
  OpenOutcome a n v v' now (some e) = open_account h a n v now ≡ (err e, a, v)
  OpenOutcome a n v v' now none = Opened a n v v' now

  -- `open` on every branch, for an account whose key is that of its signing key and whose hashes
  -- can be computed (`IsReady`): an account with any block reports `AccountAlreadyOpen` and a
  -- balance over the cap `SupplyCapExceeded`, and nothing changes; else it succeeds, with
  -- everything that `Opened` says.
  pub open_lem :
      (a : AccountChain) (n : ℕ) (v : VectorClock) (now : ℕ)
      → IsKeyed h a
      → (r : IsReady h a) → OpenOutcome a n v (tick r.sid v) now (open_error a.blocks n)
  open_lem a n v now k r = elim (Option-cases (open_error a.blocks n)) [
    | inl e ↦ rw e (open_accepts a n v now k r e)
    | inr (x, e) ↦ rw e (open_refuses a n v now x e)
  ]

  -- A new account satisfies the invariant.
  pub new-IsValid :
      (sk : Bytes)
      → IsHex h.primitives
      → IsSigner h.primitives sk
      → All IsByte (h.public_of sk)
      → IsValid h (new h sk)
  unfolding new
  new-IsValid sk x s b = record {
    keyed = record {
      derived = refl;
      decodes = x.hex_decode-hex_encode (h.public_of sk) b;
      signer = s;
    };
    intact = unfold verify_chain_integrity in refl;
    tip = (refl, refl);
    within = omega arith;
  }
