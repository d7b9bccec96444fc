-- ===== src/Lattice/Ledger/Outcome.antt =====
-- When `add_block` accepts a block, and what it leaves when it does not.
use arxia.Prelude.{
  ℕ, ◌+◌, ◌≡◌, ◌≢◌, ◌↔◌, ◌⊎◌, refl, Option, none, some, length, last?, arith, inl, inr, ◌∙◌,
}
use arxia.Prelude.Ord.{Str, eqb_iff, str_ord}
use arxia.Prelude.Map.Laws.{lookup-insert}
use arxia.Prelude.Result.{ok, panic, Result-cases}
use arxia.Crypto.{verify, validate_pubkey_strict}
use arxia.Lattice.Block.{
  Block, BlockType, Host, verify_block, block_hash, compute_hash, decode_account, open_block,
  send_block, receive_block, revoke_block,
}
use arxia.Lattice.Block.Links.{Follows}
use arxia.Lattice.Ledger.{
  Ledger, add_block, check_block, extend, check_supply, check_source, check_position, index_block,
  touch, push, chain_of,
}

check_position→Follows :
    (o : Option Block) (n : ℕ) (b : Block) → check_position o n b ≡ ok tt → Follows o b
unfolding check_position
check_position→Follows none n b e = ground arith
check_position→Follows (some last) n b e = ground (arith, eqb_iff b.previous last.hash)

Follows→check_position :
    (o : Option Block) (n : ℕ) (b : Block) → Follows o b → check_position o n b ≡ ok tt
unfolding check_position
Follows→check_position none n b f = ground arith
Follows→check_position (some last) n b f = ground (arith, eqb_iff b.previous last.hash)

-- The index update cannot panic, since the supply was checked.
index_block_total :
    (l : Ledger) (b : Block) (t : BlockType)
    → check_supply l t ≡ ok tt
    → (l' : Ledger) × (index_block l b t ≡ ok l')
unfolding index_block check_supply
index_block_total l b (open_block n) e =
    (record l { total_supply = l.total_supply + n }, ground arith)
index_block_total l b (send_block d n) e = (_, refl)
index_block_total l b (receive_block s) e = (_, refl)
index_block_total l b (revoke_block s) e = (_, refl)

pub chain_of-touch : (a : Str) (l : Ledger) → chain_of a (touch a l) ≡ chain_of a l
unfolding chain_of touch
chain_of-touch a l = ground (arith, lookup-insert a a (chain_of a l) l.chains)

pub check_source-touch :
    (a : Str) (l : Ledger) (k : Str) (t : BlockType)
    → check_source (touch a l) k t ≡ check_source l k t
unfolding check_source touch
check_source-touch a l k (open_block n) = refl
check_source-touch a l k (send_block d n) = refl
check_source-touch a l k (receive_block s) = refl
check_source-touch a l k (revoke_block s) = refl

pub check_supply-touch :
    (a : Str) (l : Ledger) (t : BlockType) → check_supply (touch a l) t ≡ check_supply l t
unfolding check_supply touch
check_supply-touch a l (open_block n) = refl
check_supply-touch a l (send_block d n) = refl
check_supply-touch a l (receive_block s) = refl
check_supply-touch a l (revoke_block s) = refl

module _ (h : Host) where
  -- What `add_block` asks of a block.
  pub record Acceptable (l : Ledger) (b : Block) : Type 0 where
    pub verified : verify_block h b ≡ ok tt
    pub supplied : check_supply l b.block_type ≡ ok tt
    pub sourced : check_source l b.account b.block_type ≡ ok tt
    pub follows : Follows (last? (chain_of b.account l)) b

  check_block→Acceptable :
      (l : Ledger) (b : Block)
      → check_block h l b ≡ ok tt
      → (verify_block h b ≡ ok tt)
        × (check_supply l b.block_type ≡ ok tt)
        × (check_source l b.account b.block_type ≡ ok tt)
  unfolding check_block
  check_block→Acceptable l b e = ground arith

  -- What an accepted block leads to.
  pub record Accepted (l : Ledger) (b : Block) : Type 0 where
    pub acceptable : Acceptable l b
    pub next : Ledger
    pub indexed : index_block (touch b.account l) b b.block_type ≡ ok next
    pub outcome : add_block h l b ≡ (ok tt, push b next)

  accepts : (l : Ledger) (b : Block) → Acceptable l b → Accepted l b
  unfolding add_block check_block extend
  accepts l b a =
      let t : Ledger = touch b.account l in
      let (next, e) =
        index_block_total t b b.block_type
          (check_supply-touch b.account l b.block_type ∙ a.supplied) in
      let p =
        Follows→check_position (last? (chain_of b.account l)) (length (chain_of b.account l)) b
          a.follows in
      record {
        acceptable = a;
        next = next;
        indexed = e;
        outcome =
            ground (arith, a.verified, a.supplied, a.sourced, chain_of-touch b.account l, p, e);
      }

  accepted→Acceptable : (l : Ledger) (b : Block) → (add_block h l b).0 ≡ ok tt → Acceptable l b
  unfolding add_block extend
  accepted→Acceptable l b e =
      let c = check_block→Acceptable l b (ground arith) in
      record {
        verified = c.0;
        supplied = c.1;
        sourced = c.2;
        follows =
            check_position→Follows (last? (chain_of b.account l)) (length (chain_of b.account l)) b
              (ground (arith, chain_of-touch b.account l));
      }

  refused :
      (l : Ledger) (b : Block)
      → (add_block h l b).0 ≢ ok tt
      → ((add_block h l b).1 ≡ l) ⊎ ((add_block h l b).1 ≡ touch b.account l)
  unfolding add_block extend
  refused l b e = elim (Result-cases (check_block h l b)) [
    | inr no_check ↦ inl (ground arith)
    | inl (_, checked) ↦ inr (ground arith)
  ]

  verify_block-ne-panic : (b : Block) → verify_block h b ≢ panic
  unfolding verify_block block_hash compute_hash decode_account verify validate_pubkey_strict
  verify_block-ne-panic b e = ground arith

  check_block-ne-panic : (l : Ledger) (b : Block) → check_block h l b ≢ panic
  unfolding check_block check_supply check_source
  check_block-ne-panic l b e = ground (arith, verify_block-ne-panic b)

  check_position-ne-panic : (o : Option Block) (n : ℕ) (b : Block) → check_position o n b ≢ panic
  unfolding check_position
  check_position-ne-panic o n b e = ground arith

  add_block-ne-panic : (l : Ledger) (b : Block) → (add_block h l b).0 ≢ panic
  unfolding add_block extend
  add_block-ne-panic l b e =
      let t : Ledger = touch b.account l in
      elim (Result-cases (check_block h l b)) [
        | inr no_check ↦ ground (arith, check_block-ne-panic l b)
        | inl (_, checked) ↦
            let c = check_block→Acceptable l b (ground arith) in
            let n =
              index_block_total t b b.block_type
                (check_supply-touch b.account l b.block_type ∙ c.1) in
            ground (
              arith,
              n.1,
              check_position-ne-panic (last? (chain_of b.account t)) (length (chain_of b.account t))
                  b,
            )
      ]

  -- The four facts of an offered block, as the preservation of the invariant uses them.
  pub add_block_facts :
      (l : Ledger) (b : Block)
      → let (r, l') = add_block h l b in
        ((r ≡ ok tt) ↔ Acceptable l b)
        × (r ≡ ok tt → Accepted l b)
        × (r ≢ ok tt → (l' ≡ l) ⊎ (l' ≡ touch b.account l))
        × (r ≢ panic)
  add_block_facts l b = (
    (accepted→Acceptable l b, (λ a. ground (arith, (accepts l b a).outcome))),
    (λ e. accepts l b (accepted→Acceptable l b e)),
    refused l b,
    add_block-ne-panic l b,
  )

  -- What a refusal leaves: the ledger, but that the account may have been entered with an empty chain.
  pub record Refused (l : Ledger) (b : Block) : Type 0 where
    unacceptable : ¬ Acceptable l b
    pub no_panic : (add_block h l b).0 ≢ panic
    pub not_ok : (add_block h l b).0 ≢ ok tt
    pub left : ((add_block h l b).1 ≡ l) ⊎ ((add_block h l b).1 ≡ touch b.account l)

  -- An offered block is accepted, which it is exactly when it verifies, the supply and the source
  -- allow it, and it follows the last block of its account; then the ledger is the one that
  -- `Accepted` names. Or it is refused without a panic, and the ledger is unchanged, but that the
  -- account may have been entered with an empty chain.
  pub add_block_lem : (l : Ledger) (b : Block) → Accepted l b ⊎ Refused l b
  add_block_lem l b = elim (Result-cases (add_block h l b).0) [
    | inl (_, e) ↦ inl (accepts l b (accepted→Acceptable l b e))
    | inr not_ok ↦
        let n : (add_block h l b).0 ≢ ok tt = λ e. ground (arith, e, not_ok) in
        inr (record {
          unacceptable = λ a. n (ground (arith, (accepts l b a).outcome));
          no_panic = add_block-ne-panic l b;
          not_ok = n;
          left = refused l b n;
        })
  ]
