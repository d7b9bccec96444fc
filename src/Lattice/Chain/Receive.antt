-- ===== src/Lattice/Chain/Receive.antt =====
-- `AccountChain::receive` on every branch, and what it does on an account that was never opened.
use arxia.Prelude.{
  ℕ, ◌+◌, ◌≤◌, ◌≡◌, [], ◌∷◌, ◌++◌, Option, some, none, last?, arith, Option-cases, inl, inr, ltb,
  leb, if◌then◌else◌, ◌^◌, ap,
}
use arxia.Prelude.Ord.{Str, eqb, str_ord}
use arxia.Prelude.Map.{insert, contains_key}
use arxia.Prelude.Words.{wrap_add}
use arxia.Prelude.Result.{ok, err}
use arxia.Core.{
  ArxiaError, wrong_destination, not_send_block, duplicate_receive, balance_overflow,
  supply_cap_exceeded, max_initial_balance_per_account, invalid_genesis, first_not_open,
}
use arxia.Lattice.Block.{
  Block, BlockType, open_block, send_block, receive_block, revoke_block, Host,
  verify_chain_integrity,
}
use arxia.Lattice.Clock.{VectorClock, tick}
use arxia.Lattice.Chain.{
  AccountChain, last_hash, push_block, receive, receive_checks, addressed_amount, consume, Outcome,
}
use arxia.Lattice.Chain.Make.{IsKeyed, IsMade, make_block-IsMade}
use arxia.Lattice.Chain.Invariant.{IsValid, IsReady, pushed-IsValid, make_block_total, last-Follows}

-- Why a receive of a send of `amount` with this hash is refused.
abbrev credit_error : AccountChain → Str → ℕ → Option ArxiaError
credit_error a source_hash amount =
    if contains_key source_hash a.consumed_sources
    then some (duplicate_receive source_hash)
    else if leb (2 ^ 64) (a.balance + amount)
    then some (balance_overflow a.balance amount)
    else if ltb max_initial_balance_per_account (a.balance + amount)
    then some (supply_cap_exceeded (a.balance + amount) max_initial_balance_per_account)
    else none

-- Why a receive is refused: the first reason that applies.
abbrev pub receive_error : AccountChain → Str → BlockType → Option ArxiaError
receive_error a source_hash (send_block destination amount) =
    if eqb destination a.public_key_hex
    then credit_error a source_hash amount
    else some wrong_destination
receive_error a source_hash (open_block n) = some not_send_block
receive_error a source_hash (receive_block s) = some not_send_block
receive_error a source_hash (revoke_block s) = some not_send_block

-- What a send is worth.
abbrev pub amount_of : BlockType → ℕ
amount_of (send_block destination amount) = amount
amount_of (open_block n) = 0
amount_of (receive_block s) = 0
amount_of (revoke_block s) = 0

module _ (h : Host) where
  checks_refuse :
      (a : AccountChain) (source : Block) (e : ArxiaError)
      → receive_error a source.hash source.block_type ≡ some e
      → receive_checks h a source ≡ err e
  unfolding receive_checks addressed_amount
  checks_refuse a source e p = ground arith

  checks_accept :
      (a : AccountChain) (source : Block) (r : IsReady h a)
      → receive_error a source.hash source.block_type ≡ none
      → receive_checks h a source ≡ ok (a.balance + amount_of source.block_type, r.sid)
  unfolding receive_checks addressed_amount
  checks_accept a source r p = ground (arith, r.sid_eq)

  -- The state over which the block of a receive is made.
  abbrev credited : AccountChain → ℕ → AccountChain
  credited a amount = record a { balance = a.balance + amount; nonce = wrap_add a.nonce 1 }

  -- The state after a receive.
  abbrev received : AccountChain → Block → Block → AccountChain
  received a source block = record (credited a (amount_of source.block_type)) {
    blocks = a.blocks ++ (block ∷ []);
    consumed_sources = insert source.hash tt a.consumed_sources;
  }

  -- A receive that no reason refuses appends a receive block with the next nonce, raises the balance
  -- by exactly the amount of the source and stays within the cap, and remembers the source.
  pub record Received (a : AccountChain) (source : Block) (v v' : VectorClock) (now : ℕ)
      : Type 0 where
    pub block : Block
    pub outcome : receive h a source v now ≡ (ok block, received a source block, v')
    pub made :
        IsMade h
          (credited a (amount_of source.block_type))
          (last_hash a.blocks)
          (receive_block source.hash)
          now
          block
    gained : block.balance ≡ a.balance + amount_of source.block_type
    capped : block.balance ≤ max_initial_balance_per_account

  pub receive_refuses :
      (a : AccountChain) (source : Block) (v : VectorClock) (now : ℕ) (e : ArxiaError)
      → receive_error a source.hash source.block_type ≡ some e
      → receive h a source v now ≡ (err e, a, v)
  unfolding receive
  receive_refuses a source v now e p = rw (checks_refuse a source e p, receive)

  pub receive_accepts :
      (a : AccountChain) (source : Block) (v : VectorClock) (now : ℕ)
      → IsKeyed h a
      → (r : IsReady h a) → receive_error a source.hash source.block_type ≡ none
      → Received a source v (tick r.sid v) now
  unfolding receive push_block consume
  receive_accepts a source v now k r e =
      let n : ℕ = amount_of source.block_type in
      let a' : AccountChain = credited a n in
      let k' : IsKeyed h a' = record {
        derived = k.derived;
        decodes = k.decodes;
        signer = k.signer;
      } in
      let r' : IsReady h a' = record {
        key_decodes = r.key_decodes;
        key_strict = r.key_strict;
        sid = r.sid;
        sid_eq = r.sid_eq;
        json = r.json;
        digest = r.digest;
      } in
      let (b, made) =
        make_block_total h a' (last_hash a.blocks) (receive_block source.hash) now r' in
      let m =
        make_block-IsMade h a' (last_hash a.blocks) (receive_block source.hash) now b k' made in
      record {
        block = b;
        outcome = ground (arith, checks_accept a source r e, made);
        made = m;
        gained = m.balance_eq;
        capped = ground (arith, m.balance_eq);
      }

  -- A receive on an account with blocks keeps the invariant.
  pub received-IsValid :
      (a : AccountChain) (source : Block) (v v' : VectorClock) (now : ℕ) {last : Block}
      → IsValid h a
      → last? a.blocks ≡ some last
      → (s : Received a source v v' now) → IsValid h (received a source s.block)
  received-IsValid a source v v' now {last} i l s =
      let n : ℕ = amount_of source.block_type in
      let a' : AccountChain = credited a n in
      let k' : IsKeyed h a' = record {
        derived = i.keyed.derived;
        decodes = i.keyed.decodes;
        signer = i.keyed.signer;
      } in
      let p =
        pushed-IsValid h a' (last_hash a.blocks) (receive_block source.hash) now s.block k' i.intact
          (omega (arith, s.gained, s.capped)) s.made
          (last-Follows a last s.block i.tip l s.made.nonce_eq s.made.previous_eq) in
      record {
        keyed = record {
          derived = i.keyed.derived;
          decodes = i.keyed.decodes;
          signer = i.keyed.signer;
        };
        intact = p.intact;
        tip = p.tip;
        within = p.within;
      }

  -- What a receive leads to, by the reason to refuse it, if there is one.
  abbrev pub ReceiveOutcome :
      AccountChain → Block → VectorClock → VectorClock → ℕ → Option ArxiaError → Type 0
  ReceiveOutcome a source v v' now (some e) = receive h a source v now ≡ (err e, a, v)
  ReceiveOutcome a source v v' now none =
      (s : Received a source v v' now) × IsValid h (received a source s.block)

  -- `receive` on every branch, for an account that has a block, satisfies the invariant and whose
  -- hashes can be computed (`IsReady`): where a reason applies it reports the first and changes
  -- nothing; where none does it succeeds, with everything that `Received` says, and the invariant
  -- holds after it.
  pub receive_lem :
      (a : AccountChain) (source : Block) (v : VectorClock) (now : ℕ) (last : Block)
      → IsValid h a
      → (r : IsReady h a) → last? a.blocks ≡ some last
      → ReceiveOutcome a source v (tick r.sid v) now (receive_error a source.hash source.block_type)
  receive_lem a source v now last i r l =
      elim (Option-cases (receive_error a source.hash source.block_type)) [
        | inl e ↦
            let s = receive_accepts a source v now i.keyed r e in
            rw e (s, received-IsValid a source v (tick r.sid v) now {last = last} i l s)
        | inr (x, e) ↦ rw e (receive_refuses a source v now x e)
      ]

  -- A receive on an account that was never opened, with a key of its own and computable hashes
  -- (`IsReady`), is not refused where no reason of an opened account applies: it starts the chain
  -- with a receive block, and that chain fails `verify_chain_integrity`.
  receive_unopened :
      (a : AccountChain) (source : Block) (v : VectorClock) (now : ℕ)
      → IsKeyed h a
      → (r : IsReady h a) → a.blocks ≡ []
      → a.nonce ≡ 0
      → receive_error a source.hash source.block_type ≡ none
      → let (outcome, a', v') = receive h a source v now in
        (b : Block) × (outcome ≡ ok b)
        × (a'.blocks ≡ b ∷ [])
        × (verify_chain_integrity h a'.blocks ≡ err (invalid_genesis first_not_open))
  unfolding verify_chain_integrity
  receive_unopened a source v now k r empty n e =
      let s = receive_accepts a source v now k r e in
      (
        s.block,
        ap (λ (o : Outcome). o.0) s.outcome,
        rw s.outcome (rw empty),
        rw s.outcome (rw empty (ground (arith, s.made.nonce_eq, s.made.block_type_eq))),
      )
