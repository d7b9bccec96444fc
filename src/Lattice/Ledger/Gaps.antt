-- ===== src/Lattice/Ledger/Gaps.antt =====
-- What `add_block` does not ask of a block.
use arxia.Prelude.{ℕ, ◌+◌, ◌≤◌, ◌≡◌, some, last?, arith, ◌∙◌}
use arxia.Prelude.Ord.{Str}
use arxia.Prelude.Words.{wrap_add}
use arxia.Prelude.Result.{ok}
use arxia.Core.{total_supply_micro_arx}
use arxia.Lattice.Block.{Block, Host, verify_block, open_block, send_block}
use arxia.Lattice.Chain.{AccountChain, make_block}
use arxia.Lattice.Chain.Make.{IsKeyed, make_block-IsMade}
use arxia.Lattice.Ledger.{Ledger, add_block, check_supply, check_source, push, touch, chain_of}
use arxia.Lattice.Ledger.Outcome.{Acceptable, add_block_facts}
use arxia.Lattice.Ledger.Indices.{indexed-supply}

module _ (h : Host) where
  -- An open block that follows the last block of an account that is open already is accepted, and
  -- mints its balance once more, as long as the supply stays within the ceiling.
  pub open_again_mints :
      (l : Ledger) (b last : Block) (n : ℕ)
      → verify_block h b ≡ ok tt
      → b.block_type ≡ open_block n
      → last? (chain_of b.account l) ≡ some last
      → b.nonce ≡ wrap_add last.nonce 1
      → b.previous ≡ last.hash
      → l.total_supply + n ≤ total_supply_micro_arx
      → ((add_block h l b).0 ≡ ok tt) × ((add_block h l b).1.total_supply ≡ l.total_supply + n)
  unfolding check_supply check_source push touch
  open_again_mints l b last n v t e nonce prev room =
      let (iff, accepted, refused, no_panic) = add_block_facts h l b in
      let a : Acceptable h l b = record {
        verified = v;
        supplied = rw t (ground arith);
        sourced = rw t;
        follows = rw e (nonce, prev);
      } in
      let x = accepted (iff.1 a) in
      (
        iff.1 a,
        ground (
          arith,
          x.outcome,
          indexed-supply (touch b.account l) x.next b b.block_type x.indexed,
          t,
        ),
      )

  -- The ledger does not look at balances and amounts: whatever balance `x` the owner of an account
  -- writes into a send of whatever amount `n`, to whomever, the block is accepted.
  send_unfunded :
      (l : Ledger) (a : AccountChain) (last b : Block) (x n now : ℕ) (destination : Str)
      → IsKeyed h a
      → a.balance ≡ x
      → last? (chain_of a.public_key_hex l) ≡ some last
      → a.nonce ≡ wrap_add last.nonce 1
      → make_block h a last.hash (send_block destination n) now ≡ ok b
      → ((add_block h l b).0 ≡ ok tt) × (b.balance ≡ x) × (b.block_type ≡ send_block destination n)
  unfolding check_supply check_source
  send_unfunded l a last b x n now destination k bal e nonce made =
      let m = make_block-IsMade h a last.hash (send_block destination n) now b k made in
      let (iff, accepted, refused, no_panic) = add_block_facts h l b in
      (
        iff.1 (record {
          verified = m.verified;
          supplied = rw m.block_type_eq;
          sourced = rw m.block_type_eq;
          follows = rw (m.account_eq, e) (m.nonce_eq ∙ nonce, m.previous_eq);
        }),
        m.balance_eq ∙ bal,
        m.block_type_eq,
      )
