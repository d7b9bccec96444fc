-- ===== src/Lattice/Block/Links.antt =====
-- Chains grow at the end: when one more block keeps `verify_chain_integrity`.
use arxia.Prelude.{ℕ, ◌+◌, ◌≡◌, List, [], ◌∷◌, ◌++◌, Option, some, none, last?, arith, true}
use arxia.Prelude.Ord.{eqb_refl, str_ord}
use arxia.Prelude.Words.{wrap_add}
use arxia.Prelude.Result.{ok}
use arxia.Lattice.Block.{Block, Host, is_open, verify_block, verify_links, verify_chain_integrity}

-- `b` may stand behind `last`: it carries the next nonce and the hash of `last`. Behind no block it
-- must be a genesis.
abbrev pub Follows : Option Block → Block → Type 0
Follows none b = (b.nonce ≡ 1) × (is_open b.block_type ≡ true) × (b.previous ≡ [])
Follows (some last) b = (b.nonce ≡ wrap_add last.nonce 1) × (b.previous ≡ last.hash)

module _ (h : Host) where
  verify_links-append :
      (i : ℕ) (last : Block) (bs : List Block) (b : Block)
      → verify_links h i last bs ≡ ok tt
      → verify_block h b ≡ ok tt
      → Follows (last? (last ∷ bs)) b
      → verify_links h i last (bs ++ (b ∷ [])) ≡ ok tt
  unfolding verify_links
  verify_links-append i last [] b e v f = ground (arith, v, f.1, eqb_refl last.hash)
  verify_links-append i last (c ∷ bs) b e v f = ground (arith, verify_links-append (i + 1) c bs b)

  -- A verified block that follows the last one extends a chain that passes the check.
  pub verify_chain_integrity-append :
      (bs : List Block) (b : Block)
      → verify_chain_integrity h bs ≡ ok tt
      → verify_block h b ≡ ok tt
      → Follows (last? bs) b
      → verify_chain_integrity h (bs ++ (b ∷ [])) ≡ ok tt
  unfolding verify_chain_integrity
  verify_chain_integrity-append [] b e v f = unfold verify_links in ground arith
  verify_chain_integrity-append (c ∷ bs) b e v f = ground (arith, verify_links-append 1 c bs b)
