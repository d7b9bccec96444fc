-- ===== src/Lattice/Ledger/Preserve.antt =====
-- `add_block` keeps the invariant of the ledger, on every branch.
use mathlib.Core.Path.{subst₂}
use arxia.Prelude.{
  ℕ, ◌+◌, ◌≡◌, ◌⊎◌, refl, some, List, [], ◌∷◌, last?, arith, inl, inr, All, All-append, ◌∙◌, sym,
  ap, Option-cases, Bool-cases, ltb, ltb→lt, ltb→ge,
}
use arxia.Prelude.Ord.{Str, eqb, eqb_iff, str_ord}
use arxia.Prelude.Map.{Map, lookup, insert}
use arxia.Prelude.Map.Laws.{lookup-insert, insert-IsSorted}
use arxia.Prelude.Result.{ok, Result-cases}
use arxia.Lattice.Block.{Block, Host, verify_block, verify_chain_integrity}
use arxia.Lattice.Block.Links.{Follows, verify_chain_integrity-append}
use arxia.Lattice.Ledger.{
  Ledger, new, ingest, add_block, check_supply, check_source, index_block, touch, push, chain_of,
}
use arxia.Lattice.Ledger.Outcome.{
  add_block_facts, check_supply-touch, check_source-touch, chain_of-touch,
}
use arxia.Lattice.Ledger.Sums.{sum_chains}
use arxia.Lattice.Ledger.Invariant.{
  IsValid, sum-touch, sum-push, minted_by, cites, sends, credits, receives_on,
}
use arxia.Lattice.Ledger.Indices.{
  indexed-chains, indexed-supply, indexed-ceiling, indexed-consumed, indexed-sends, cited_send,
}

module _ (h : Host) where
  -- A statement about every chain of a ledger, once one chain is replaced.
  replaced {ℓ} :
      (P : Str → List Block → Type ℓ) (k : Str) (cs : List Block) (m : Map Str (List Block))
      → ((a : Str) (bs : List Block) → lookup a m ≡ some bs → P a bs)
      → P k cs
      → (a : Str) (bs : List Block) → lookup a (insert k cs m) ≡ some bs
      → P a bs
  replaced P k cs m old fresh a bs e = elim (Bool-cases (eqb a k)) [
    | inl same ↦
        let ak : a ≡ k = (eqb_iff a k).0 same in
        let cb : cs ≡ bs = ground (arith, lookup-insert a k cs m) in subst₂ P (sym ak) cb fresh
    | inr other ↦ old a bs (ground (arith, lookup-insert a k cs m))
  ]

  chain_of_cases :
      (l : Ledger) (a : Str) → (chain_of a l ≡ []) ⊎ (lookup a l.chains ≡ some (chain_of a l))
  unfolding chain_of
  chain_of_cases l a = elim (Option-cases (lookup a l.chains)) [
    | inl e ↦ inl (ground arith)
    | inr (bs, e) ↦ inr (ground arith)
  ]

  chain_of-intact :
      (l : Ledger) (a : Str) → IsValid h l → verify_chain_integrity h (chain_of a l) ≡ ok tt
  unfolding verify_chain_integrity
  chain_of-intact l a i = elim (chain_of_cases l a) [
    | inl e ↦ rw e
    | inr e ↦ i.intact a (chain_of a l) e
  ]

  chain_of-filed : (l : Ledger) (a : Str) → IsValid h l → All (λ b. b.account ≡ a) (chain_of a l)
  chain_of-filed l a i = elim (chain_of_cases l a) [
    | inl e ↦ rw e tt
    | inr e ↦ i.filed a (chain_of a l) e
  ]

  touch-IsValid : (l : Ledger) (a : Str) → IsValid h l → IsValid h (touch a l)
  unfolding touch
  touch-IsValid l a i = record {
    sorted = insert-IsSorted a (chain_of a l) l.chains i.sorted;
    intact =
        replaced (λ k bs. verify_chain_integrity h bs ≡ ok tt) a (chain_of a l) l.chains i.intact
          (chain_of-intact l a i);
    filed =
        replaced (λ k bs. All (λ b. b.account ≡ k) bs) a (chain_of a l) l.chains i.filed
          (chain_of-filed l a i);
    supply = i.supply ∙ sym (sum-touch h (λ b. minted_by b.block_type) a l i.sorted);
    ceiling = i.ceiling;
    once = λ s. sum-touch h (λ b. cites s b.block_type) a l i.sorted ∙ i.once s;
    indexed = λ s info e.
        rw (sum-touch h (λ b. sends s info.destination b.hash b.block_type) a l i.sorted)
          (i.indexed s info e);
    sourced = λ s d p. omega (
      arith,
      i.sourced s d,
      sum-touch h (λ b. sends s d b.hash b.block_type) a l i.sorted,
      sum-touch h (λ b. credits s d b.account b.block_type) a l i.sorted,
    );
  }

  -- Pushing a block that was checked and indexed.
  module _ (l next : Ledger) (b : Block) (i : IsValid h l)
      (e : index_block l b b.block_type ≡ ok next) where
    pushed_sum : (f : Block → ℕ) → sum_chains f (push b next).chains ≡ sum_chains f l.chains + f b
    pushed_sum f =
        let same = indexed-chains l next b b.block_type e in
        sum-push h f b next (rw same i.sorted) ∙ ap (λ c. sum_chains f c + f b) same

    pushed_chain : chain_of b.account next ≡ chain_of b.account l
    unfolding chain_of
    pushed_chain = rw (indexed-chains l next b b.block_type e)

    pushed-IsValid :
        verify_block h b ≡ ok tt
        → check_supply l b.block_type ≡ ok tt
        → check_source l b.account b.block_type ≡ ok tt
        → Follows (last? (chain_of b.account l)) b
        → IsValid h (push b next)
    unfolding push
    pushed-IsValid v c r f =
        let same = indexed-chains l next b b.block_type e in
        record {
          sorted = insert-IsSorted b.account _ next.chains (rw same i.sorted);
          intact =
              replaced (λ k bs. verify_chain_integrity h bs ≡ ok tt) b.account _ next.chains
                (λ a bs q. i.intact a bs (rw same at q))
                (rw pushed_chain (
                  verify_chain_integrity-append h (chain_of b.account l) b
                    (chain_of-intact l b.account i) v f));
          filed =
              replaced (λ k bs. All (λ x. x.account ≡ k) bs) b.account _ next.chains
                (λ a bs q. i.filed a bs (rw same at q))
                (rw pushed_chain (
                  All-append (λ x. x.account ≡ b.account) (chain_of b.account l) (b ∷ [])
                    (chain_of-filed l b.account i) (refl, tt)));
          supply = omega (
            arith,
            i.supply,
            indexed-supply l next b b.block_type e,
            pushed_sum (λ x. minted_by x.block_type),
          );
          ceiling = indexed-ceiling l next b b.block_type c e i.ceiling;
          once = λ s.
              pushed_sum (λ x. cites s x.block_type)
              ∙ ap (λ n. n + cites s b.block_type) (i.once s)
              ∙ sym (indexed-consumed l next b s b.block_type r e);
          indexed = λ s info q. elim (indexed-sends l next b s info b.block_type e q) [
            | inl old ↦ omega (
              arith,
              i.indexed s info old,
              pushed_sum (λ x. sends s info.destination x.hash x.block_type),
            )
            | inr fresh ↦
                omega (arith, pushed_sum (λ x. sends s info.destination x.hash x.block_type))
          ];
          sourced = λ s d p. elim (Bool-cases (ltb 0 (receives_on s d l))) [
            | inl old ↦ omega (
              arith,
              ltb→lt _ _ old,
              i.sourced s d,
              pushed_sum (λ x. sends s d x.hash x.block_type),
            )
            | inr fresh ↦
                let none_before = ltb→ge _ _ fresh in
                let grown = pushed_sum (λ x. credits s d x.account x.block_type) in
                let (info, q, dest) = cited_send l next b s d b.block_type r (omega arith) in
                omega (
                  arith,
                  rw dest at (i.indexed s info q),
                  pushed_sum (λ x. sends s d x.hash x.block_type),
                )
          ];
        }

  -- The ledger of any block that is offered, accepted or not, satisfies the invariant.
  add_block-IsValid : (l : Ledger) (b : Block) → IsValid h l → IsValid h (add_block h l b).1
  add_block-IsValid l b i =
      let (iff, accepted, refused, no_panic) = add_block_facts h l b in
      elim (Result-cases (add_block h l b).0) [
        | inr not_ok ↦ elim (refused (λ e. ground arith)) [
          | inl same ↦ rw same i
          | inr touched ↦ rw touched (touch-IsValid l b.account i)
        ]
        | inl (_, is_ok') ↦
            let a = accepted (ground arith) in
            let t : Ledger = touch b.account l in
            rw a.outcome (
              pushed-IsValid t a.next b (touch-IsValid l b.account i) a.indexed
                a.acceptable.verified
                (check_supply-touch b.account l b.block_type ∙ a.acceptable.supplied)
                (check_source-touch b.account l b.account b.block_type ∙ a.acceptable.sourced)
                (rw (chain_of-touch b.account l) a.acceptable.follows))
      ]

  new-IsValid : IsValid h new
  unfolding new lookup
  new-IsValid = record {
    sorted = tt;
    intact = λ a bs e. absurd (ground arith);
    filed = λ a bs e. absurd (ground arith);
    supply = refl;
    ceiling = omega arith;
    once = λ s. refl;
    indexed = λ s info e. absurd (ground arith);
    sourced = λ s d p. absurd (omega arith);
  }

  ingest-keeps : (l : Ledger) (bs : List Block) → IsValid h l → IsValid h (ingest h l bs)
  unfolding ingest
  ingest-keeps l [] i = i
  ingest-keeps l (b ∷ bs) i = ingest-keeps (add_block h l b).1 bs (add_block-IsValid l b i)

  -- Whatever blocks a node is offered, in whatever order, its ledger satisfies the invariant: every
  -- chain passes `verify_chain_integrity` and is filed under its account, the supply is what the open
  -- blocks minted and within the ceiling, a send is received at most once on all accounts together,
  -- and every receive cites an accepted send to its account.
  pub ingest-IsValid : (bs : List Block) → IsValid h (ingest h new bs)
  ingest-IsValid bs = ingest-keeps new bs new-IsValid
