-- ===== src/Lattice/Chain/Send.antt =====
-- `AccountChain::send` on every branch.
use arxia.Prelude.{
  ℕ, ◌+◌, ◌-◌, ◌≡◌, [], ◌∷◌, ◌++◌, Option, some, none, arith, ◌==◌, Option-cases, inl, inr, ltb,
  if◌then◌else◌,
}
use arxia.Prelude.Ord.{Str, eqb, str_ord}
use arxia.Prelude.Words.{wrap_add}
use arxia.Prelude.Result.{ok, err}
use arxia.Core.{ArxiaError, zero_amount, self_send_not_allowed, insufficient_balance}
use arxia.Lattice.Block.{Block, send_block, Host}
use arxia.Lattice.Clock.{VectorClock, tick}
use arxia.Lattice.Chain.{AccountChain, last_hash, push_block, send, send_checks}
use arxia.Lattice.Chain.Make.{IsKeyed, IsMade, make_block-IsMade}
use arxia.Lattice.Chain.Invariant.{
  IsValid, IsReady, pushed-IsValid, make_block_total, last_of_pos, last-Follows,
}

-- Why a send is refused: the first of the three reasons that applies.
abbrev pub send_error : AccountChain → Str → ℕ → Option ArxiaError
send_error a destination amount =
    if amount == 0
    then some zero_amount
    else if eqb destination a.public_key_hex
    then some self_send_not_allowed
    else if ltb a.balance amount
    then some (insufficient_balance a.balance amount)
    else none

module _ (h : Host) where
  pub send_refuses :
      (a : AccountChain) (destination : Str) (amount : ℕ) (v : VectorClock) (now : ℕ)
      (e : ArxiaError)
      → send_error a destination amount ≡ some e
      → send h a destination amount v now ≡ (err e, a, v)
  unfolding send send_checks
  send_refuses a destination amount v now e p = ground arith

  -- The state over which the block of a send is made.
  abbrev debited : AccountChain → ℕ → AccountChain
  debited a amount = record a { balance = a.balance - amount; nonce = wrap_add a.nonce 1 }

  -- A send that no reason refuses appends a send block with the next nonce, lowers the balance by
  -- exactly the amount, and keeps the invariant.
  pub record Sent (a : AccountChain) (destination : Str) (amount : ℕ) (v v' : VectorClock) (now : ℕ)
      : Type 0 where
    pub block : Block
    pub outcome :
        send h a destination amount v now
        ≡ (ok block, record (debited a amount) { blocks = a.blocks ++ (block ∷ []) }, v')
    pub made :
        IsMade h (debited a amount) (last_hash a.blocks) (send_block destination amount) now block
    pub paid : block.balance + amount ≡ a.balance
    pub valid : IsValid h (record (debited a amount) { blocks = a.blocks ++ (block ∷ []) })

  pub send_accepts :
      (a : AccountChain) (destination : Str) (amount : ℕ) (v : VectorClock) (now : ℕ)
      → IsValid h a
      → (r : IsReady h a) → send_error a destination amount ≡ none
      → Sent a destination amount v (tick r.sid v) now
  unfolding send send_checks push_block
  send_accepts a destination amount v now i r e =
      let a' : AccountChain = debited a amount in
      let k : IsKeyed h a' = record {
        derived = i.keyed.derived;
        decodes = i.keyed.decodes;
        signer = i.keyed.signer;
      } in
      let r' : IsReady h a' = record {
        key_decodes = r.key_decodes;
        key_strict = r.key_strict;
        sid = r.sid;
        sid_eq = r.sid_eq;
        json = r.json;
        digest = r.digest;
      } in
      let (b, made) =
        make_block_total h a' (last_hash a.blocks) (send_block destination amount) now r' in
      let m =
        make_block-IsMade h a' (last_hash a.blocks) (send_block destination amount) now b k made in
      let (last, l) = last_of_pos a i.tip (ground arith) in
      record {
        block = b;
        outcome = ground (arith, r.sid_eq, made);
        made = m;
        paid = ground (arith, m.balance_eq);
        valid =
            pushed-IsValid h a' (last_hash a.blocks) (send_block destination amount) now b k
              i.intact (ground (arith, i.within)) m
              (last-Follows a last b i.tip l m.nonce_eq m.previous_eq);
      }

  -- What a send leads to, by the reason to refuse it, if there is one.
  abbrev pub SendOutcome :
      AccountChain → Str → ℕ → VectorClock → VectorClock → ℕ → Option ArxiaError → Type 0
  SendOutcome a destination amount v v' now (some e) =
      send h a destination amount v now ≡ (err e, a, v)
  SendOutcome a destination amount v v' now none = Sent a destination amount v v' now

  -- `send` on every branch, for an account that satisfies the invariant and whose hashes can be
  -- computed (`IsReady`): where one of the three reasons applies, it reports the first and changes
  -- nothing; where none does, it succeeds, with everything that `Sent` says.
  pub send_lem :
      (a : AccountChain) (destination : Str) (amount : ℕ) (v : VectorClock) (now : ℕ)
      → IsValid h a
      → (r : IsReady h a)
      → SendOutcome a destination amount v (tick r.sid v) now (send_error a destination amount)
  send_lem a destination amount v now i r = elim (Option-cases (send_error a destination amount)) [
    | inl e ↦ rw e (send_accepts a destination amount v now i r e)
    | inr (x, e) ↦ rw e (send_refuses a destination amount v now x e)
  ]
