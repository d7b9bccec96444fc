-- ===== src/Crdt/Reconciliation.antt =====
-- crates/arxia-crdt/src/reconciliation.rs: `reconcile_partitions` as its steps.
pub mod Groups
mod Bags
mod Symmetry
mod Tally
mod Balances
mod Gaps
mod Scenario
mod Tests
use Prim.Native.Nat.Ordering.{gt}
use arxia.Prelude.{
  ℕ, Bool, true, false, Option, none, some, List, [], ◌∷◌, ◌++◌, ◌==◌, if◌then◌else◌,
}
use arxia.Prelude.Ord.{Str, eqb, cmp_str, str_ord, nat_ord, pair_ord}
use arxia.Prelude.Map.{Map, Set, lookup, insert, contains_key}
use arxia.Prelude.Int.{ℤ, is_negative}
use arxia.Prelude.Result.{Result, ok, err, ◌>>=◌, expect}
use arxia.Core.{ArxiaError, negative_balance}
use arxia.Lattice.Block.{Block, BlockType, open_block, send_block, receive_block, revoke_block}
use arxia.Lattice.Chain.{first_eight}
use arxia.Crdt.PnCounter.{PnCounter, new, increment, decrement, value}

-- `method` is "hash_tiebreaker" in every one.
pub record ResolvedConflict : Type 0 where
  pub account : Str
  pub nonce : ℕ
  pub winner_hash : Str
  pub loser_hashes : List Str

pub data Reason : Type 0 where
  source_not_found destination_mismatch : Reason

pub record RejectedReceive : Type 0 where
  pub account : Str
  pub nonce : ℕ
  receive_hash : Str
  pub source_hash : Str
  pub reason : Reason

-- `reason` is "open_at_non_genesis_nonce" in every one.
pub record RejectedGenesis : Type 0 where
  pub account : Str
  pub nonce : ℕ
  pub block_hash : Str

pub record ReconciliationReport : Type 0 where
  pub balances : Map Str ℤ
  pub conflicts : List ResolvedConflict
  pub rejected_receives : List RejectedReceive
  pub rejected_genesis : List RejectedGenesis

-- 1. The first block of each hash.
pub dedup : Set Str → List Block → List Block
dedup seen [] = []
dedup seen (b ∷ bs) =
    let again = dedup seen bs in
    let first = b ∷ dedup (insert b.hash tt seen) bs in
    if contains_key b.hash seen then again else first

abbrev pub Key : Type 0
Key = Str × ℕ

abbrev pub key_of : Block → Key
key_of b = (b.account, b.nonce)

-- A vector of blocks that has been pushed to: its first block and the later ones.
abbrev pub Group : Type 0
Group = Block × List Block

-- `entry(key).or_default().push(b)`
abbrev pub push : Option Group → Block → Group
push none b = (b, [])
push (some g) b = (g.0, g.1 ++ (b ∷ []))

-- 2. The groups by account and nonce.
unfoldable pub group : Map Key Group → List Block → Map Key Group
group m [] = m
group m (b ∷ bs) = group (insert (key_of b) (push (lookup (key_of b) m) b) m) bs

abbrev pub after : Block → Block → Bool
after x y = elim (cmp_str x.hash y.hash) [ gt ↦ true | _ ↦ false ]

-- `sort_by(|a, b| a.hash.cmp(&b.hash))`, which is stable.
pub place : Block → List Block → List Block
place x [] = x ∷ []
place x (y ∷ ys) = let later = y ∷ place x ys in if after x y then later else x ∷ y ∷ ys

pub sorted : Block → List Block → Group
sorted x [] = (x, [])
sorted x (y ∷ ys) = let (z, zs) = sorted y ys in if after x z then (z, place x zs) else (x, z ∷ zs)

-- 3. The winner of a group, which is its only block or the first of the sorted ones.
abbrev winner : Group → Block
winner (x, []) = x
winner (x, y ∷ ys) = (sorted x (y ∷ ys)).0

pub winners : Map Key Group → Map Key Block
winners [] = []
winners ((k, g) ∷ m) = (k, winner g) ∷ winners m

abbrev pub hashes : List Block → List Str
hashes [] = []
hashes (b ∷ bs) = b.hash ∷ hashes bs

-- The conflicts, by account and nonce. The code pushes them while it walks a `HashMap`, so that their
-- order in its report is any.
pub conflicts : Map Key Group → List ResolvedConflict
conflicts [] = []
conflicts ((k, (x, [])) ∷ m) = conflicts m
conflicts ((k, (x, y ∷ ys)) ∷ m) =
    let (w, losers) = sorted x (y ∷ ys) in
    record { account = k.0; nonce = k.1; winner_hash = w.hash; loser_hashes = hashes losers }
    ∷ conflicts m

abbrev is_send : BlockType → Bool
is_send (send_block d n) = true
is_send _ = false

-- 4. The winning sends by their hash.
pub applied_sends : Map Str Block → Map Key Block → Map Str Block
applied_sends sends [] = sends
applied_sends sends ((k, b) ∷ w) =
    applied_sends (if is_send b.block_type then insert b.hash b sends else sends) w

pub record Progress : Type 0 where
  pub crdts : Map Str PnCounter
  pub rejected_receives : List RejectedReceive
  pub rejected_genesis : List RejectedGenesis

-- `or_default`
abbrev pub counter_of : Str → Map Str PnCounter → PnCounter
counter_of account crdts = elim (lookup account crdts) [ none ↦ new | some c ↦ c ]

-- The slice `account[..8]` names the replica.
pub credit : Str → ℕ → Progress → Result ArxiaError Progress
credit account amount st = do
  sid ← expect (first_eight account)
  ok (record st {
    crdts = insert account (increment sid amount (counter_of account st.crdts)) st.crdts;
  })

pub debit : Str → ℕ → Progress → Result ArxiaError Progress
debit account amount st = do
  sid ← expect (first_eight account)
  ok (record st {
    crdts = insert account (decrement sid amount (counter_of account st.crdts)) st.crdts;
  })

pub reject_receive : Block → Str → Reason → Progress → Progress
reject_receive b source_hash reason st = record st {
  rejected_receives =
      st.rejected_receives
      ++ (record {
        account = b.account;
        nonce = b.nonce;
        receive_hash = b.hash;
        source_hash = source_hash;
        reason = reason;
      }
          ∷ []);
}

pub reject_genesis : Block → Progress → Progress
reject_genesis b st = record st {
  rejected_genesis =
      st.rejected_genesis
      ++ (record { account = b.account; nonce = b.nonce; block_hash = b.hash } ∷ []);
}

-- What a receive of an applied send brings: nothing, unless the send is to the account.
abbrev pub amount_to : Str → BlockType → Option ℕ
amount_to account (send_block destination amount) =
    if eqb destination account then some amount else none
amount_to account _ = none

pub apply_receive : Block → Str → Option Block → Progress → Result ArxiaError Progress
apply_receive b source_hash none st = ok (reject_receive b source_hash source_not_found st)
apply_receive b source_hash (some source) st = elim (amount_to b.account source.block_type) [
  | none ↦ ok (reject_receive b source_hash destination_mismatch st)
  | some amount ↦ credit b.account amount st
]

pub apply_type : Map Str Block → Block → BlockType → Progress → Result ArxiaError Progress
apply_type sends b (open_block initial_balance) st =
    if b.nonce == 1 then credit b.account initial_balance st else ok (reject_genesis b st)
apply_type sends b (send_block destination amount) st = debit b.account amount st
apply_type sends b (receive_block source_hash) st =
    apply_receive b source_hash (lookup source_hash sends) st
apply_type sends b (revoke_block credential) st = ok st

-- 5. The winning blocks in the order of their keys.
pub apply_all : Map Str Block → Map Key Block → Progress → Result ArxiaError Progress
apply_all sends [] st = ok st
apply_all sends ((k, b) ∷ w) st = apply_type sends b b.block_type st >>= apply_all sends w

-- 6. The balances; an account in the red ends the call. The code walks a `HashMap`, so that of several
-- such accounts any may be the one that it names; here it is the first in the order of accounts.
pub materialize : Map Str ℤ → Map Str PnCounter → Result ArxiaError (Map Str ℤ)
materialize balances [] = ok balances
materialize balances ((account, counter) ∷ crdts) =
    let rest = materialize (insert account (value counter) balances) crdts in
    if is_negative (value counter) then err (negative_balance account (value counter)) else rest

-- Steps 4 to 6, on the winners and the conflicts.
pub settle : Map Key Block → List ResolvedConflict → Result ArxiaError ReconciliationReport
settle w conflicts = do
  st ←
      apply_all (applied_sends [] w) w
        (record { crdts = []; rejected_receives = []; rejected_genesis = [] })
  balances ← materialize [] st.crdts
  ok (record {
    balances = balances;
    conflicts = conflicts;
    rejected_receives = st.rejected_receives;
    rejected_genesis = st.rejected_genesis;
  })

pub reconcile_partitions : List Block → List Block → Result ArxiaError ReconciliationReport
reconcile_partitions partition_a partition_b =
    let by_key = group [] (dedup [] (partition_a ++ partition_b)) in
    settle (winners by_key) (conflicts by_key)
