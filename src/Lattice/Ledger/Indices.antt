-- ===== src/Lattice/Ledger/Indices.antt =====
-- What the indices gain with an accepted block.
use arxia.Prelude.{◌+◌, ◌≤◌, ◌<◌, ◌≡◌, ◌⊎◌, some, arith, inl, inr, Option-cases, if◌then◌else◌}
use arxia.Prelude.Ord.{Str, eqb_iff, eqb_refl, str_ord}
use arxia.Prelude.Map.{lookup, contains_key}
use arxia.Prelude.Map.Laws.{lookup-insert}
use arxia.Prelude.Result.{ok}
use arxia.Core.{total_supply_micro_arx}
use arxia.Lattice.Block.{Block, BlockType, open_block, send_block, receive_block, revoke_block}
use arxia.Lattice.Ledger.{Ledger, SendInfo, check_supply, check_source, index_block}
use arxia.Lattice.Ledger.Invariant.{minted_by, cites, sends, credits}

module _ (l next : Ledger) (b : Block) where
  pub indexed-chains : (t : BlockType) → index_block l b t ≡ ok next → next.chains ≡ l.chains
  unfolding index_block
  indexed-chains (open_block n) e = ground arith
  indexed-chains (send_block d n) e = ground arith
  indexed-chains (receive_block s) e = ground arith
  indexed-chains (revoke_block s) e = ground arith

  pub indexed-supply :
      (t : BlockType)
      → index_block l b t ≡ ok next
      → next.total_supply ≡ l.total_supply + minted_by t
  unfolding index_block
  indexed-supply (open_block n) e = ground arith
  indexed-supply (send_block d n) e = ground arith
  indexed-supply (receive_block s) e = ground arith
  indexed-supply (revoke_block s) e = ground arith

  pub indexed-ceiling :
      (t : BlockType)
      → check_supply l t ≡ ok tt
      → index_block l b t ≡ ok next
      → l.total_supply ≤ total_supply_micro_arx
      → next.total_supply ≤ total_supply_micro_arx
  unfolding index_block check_supply
  indexed-ceiling (open_block n) c e p = ground arith
  indexed-ceiling (send_block d n) c e p = ground arith
  indexed-ceiling (receive_block s) c e p = ground arith
  indexed-ceiling (revoke_block s) c e p = ground arith

  pub indexed-consumed :
      (s : Str) (t : BlockType)
      → check_source l b.account t ≡ ok tt
      → index_block l b t ≡ ok next
      → (if contains_key s next.consumed_sends then 1 else 0)
        ≡ (if contains_key s l.consumed_sends then 1 else 0) + cites s t
  unfolding index_block check_source
  indexed-consumed s (open_block n) c e = ground arith
  indexed-consumed s (send_block d n) c e = ground arith
  indexed-consumed s (receive_block r) c e =
      ground (arith, lookup-insert s r tt l.consumed_sends, eqb_iff s r)
  indexed-consumed s (revoke_block r) c e = ground arith

  pub indexed-sends :
      (s : Str) (info : SendInfo) (t : BlockType)
      → index_block l b t ≡ ok next
      → lookup s next.send_index ≡ some info
      → (lookup s l.send_index ≡ some info) ⊎ (0 < sends s info.destination b.hash t)
  unfolding index_block
  indexed-sends s info (open_block n) e f = inl (ground arith)
  indexed-sends s info (send_block d n) e f = ground (
    arith,
    eqb_refl d,
    lookup-insert s b.hash (record { destination = d; amount = n }) l.send_index,
  )
  indexed-sends s info (receive_block r) e f = inl (ground arith)
  indexed-sends s info (revoke_block r) e f = inl (ground arith)

  -- A receive that `check_source` lets through has an indexed send to its account.
  pub cited_send :
      (s d : Str) (t : BlockType)
      → check_source l b.account t ≡ ok tt
      → 0 < credits s d b.account t
      → (info : SendInfo) × (lookup s l.send_index ≡ some info) × (info.destination ≡ d)
  unfolding check_source
  cited_send s d (open_block n) c p = absurd (ground arith)
  cited_send s d (send_block x n) c p = absurd (ground arith)
  cited_send s d (receive_block r) c p = elim (Option-cases (lookup r l.send_index)) [
    | inl absent ↦ absurd (ground arith)
    | inr (info, e) ↦ (
      info,
      ground (arith, eqb_iff s r),
      ground (arith, eqb_iff info.destination b.account, eqb_iff d b.account),
    )
  ]
  cited_send s d (revoke_block x) c p = absurd (ground arith)
