-- ===== src/Lattice/Ledger/Invariant.antt =====
-- The invariant of the ledger: what holds of every ledger that `add_block` has built.
use arxia.Prelude.{ℕ, ◌+◌, ◌≤◌, ◌<◌, ◌≡◌, some, List, [], ◌∷◌, ◌++◌, arith, All, if◌then◌else◌}
use arxia.Prelude.Ord.{Str, eqb, str_ord}
use arxia.Prelude.Map.{lookup, contains_key, IsSorted}
use arxia.Prelude.Result.{ok}
use arxia.Core.{total_supply_micro_arx}
use arxia.Lattice.Block.{
  Block, BlockType, Host, verify_chain_integrity, open_block, send_block, receive_block,
}
use arxia.Lattice.Ledger.{Ledger, SendInfo, touch, push, chain_of}
use arxia.Lattice.Ledger.Sums.{sum_chains, sum_chain-append, sum_chains-insert}

-- What a block mints.
abbrev pub minted_by : BlockType → ℕ
minted_by (open_block n) = n
minted_by _ = 0

-- 1 for a receive of the send with hash `s`.
abbrev pub cites : Str → BlockType → ℕ
cites s (receive_block source) = if eqb s source then 1 else 0
cites s _ = 0

-- 1 for a send with hash `s` to account `d`.
abbrev pub sends : Str → Str → Str → BlockType → ℕ
sends s d hash (send_block destination n) =
    if eqb s hash then (if eqb d destination then 1 else 0) else 0
sends s d hash _ = 0

-- 1 for a receive on account `d` of the send with hash `s`.
abbrev pub credits : Str → Str → Str → BlockType → ℕ
credits s d account (receive_block source) =
    if eqb s source then (if eqb d account then 1 else 0) else 0
credits s d account _ = 0

abbrev minted : Ledger → ℕ
minted l = sum_chains (λ b. minted_by b.block_type) l.chains

-- How many receives of the send with hash `s` are in the ledger, on any account.
abbrev receives_of : Str → Ledger → ℕ
receives_of s l = sum_chains (λ b. cites s b.block_type) l.chains

-- How many sends with hash `s` to `d` are in the ledger, and how many receives of it on `d`.
abbrev sends_to : Str → Str → Ledger → ℕ
sends_to s d l = sum_chains (λ b. sends s d b.hash b.block_type) l.chains

abbrev pub receives_on : Str → Str → Ledger → ℕ
receives_on s d l = sum_chains (λ b. credits s d b.account b.block_type) l.chains

module _ (h : Host) where
  pub record IsValid (l : Ledger) : Type 0 where
    pub sorted : IsSorted l.chains
    -- every chain passes the check of a whole chain, and is filed under its account
    pub intact :
        (a : Str) (bs : List Block)
        → lookup a l.chains ≡ some bs
        → verify_chain_integrity h bs ≡ ok tt
    pub filed :
        (a : Str) (bs : List Block) → lookup a l.chains ≡ some bs → All (λ b. b.account ≡ a) bs
    -- the supply is what the open blocks minted, and within the ceiling
    pub supply : l.total_supply ≡ minted l
    pub ceiling : l.total_supply ≤ total_supply_micro_arx
    -- a send is received at most once, on all accounts together
    pub once : (s : Str) → receives_of s l ≡ (if contains_key s l.consumed_sends then 1 else 0)
    -- the index lists sends of the ledger
    pub indexed :
        (s : Str) (info : SendInfo)
        → lookup s l.send_index ≡ some info
        → 0 < sends_to s info.destination l
    -- a receive cites a send to its account
    pub sourced : (s d : Str) → 0 < receives_on s d l → 0 < sends_to s d l

  -- Sums over the chains do not see an empty chain, and grow by the pushed block.
  pub sum-touch :
      (f : Block → ℕ) (a : Str) (l : Ledger)
      → IsSorted l.chains
      → sum_chains f (touch a l).chains ≡ sum_chains f l.chains
  unfolding touch chain_of
  sum-touch f a l s = ground (arith, sum_chains-insert f a (chain_of a l) l.chains s)

  pub sum-push :
      (f : Block → ℕ) (b : Block) (l : Ledger)
      → IsSorted l.chains
      → sum_chains f (push b l).chains ≡ sum_chains f l.chains + f b
  unfolding push chain_of
  sum-push f b l s = ground (
    arith,
    sum_chains-insert f b.account (chain_of b.account l ++ (b ∷ [])) l.chains s,
    sum_chain-append f (chain_of b.account l) b,
  )
