-- ===== src/Consensus/Enumeration.antt =====
-- crates/arxia-consensus/src/conflict.rs and orv.rs: finding the blocks that compete for one place of a
-- chain, and sorting out the votes of small representatives. The loop that fills `nonce_map` is written
-- in the words of the one of crates/arxia-crdt/src/reconciliation.rs.
pub mod Complete
use arxia.Prelude.{ℕ, ◌/◌, true, false, List, [], ◌∷◌, leb, if◌then◌else◌}
use arxia.Prelude.Map.{Map}
use arxia.Lattice.Block.{Block}
use arxia.Crdt.Reconciliation.{Key, Group, group}
use arxia.Consensus.Conflict.{VoteOrv}

-- The second loop of `detect_double_spend`; the reason, which is always "same_nonce", is left out.
pub spends : Map Key Group → List (Block × List Block)
spends [] = []
spends ((k, (x, [])) ∷ m) = spends m
spends ((k, (x, y ∷ ys)) ∷ m) = (x, y ∷ ys) ∷ spends m

pub detect_double_spend : List Block → List (Block × List Block)
detect_double_spend blocks = spends (group [] blocks)

abbrev min_representative_stake_denom : ℕ
min_representative_stake_denom = 1_000

pub record CollectedVotes : Type 0 where
  pub accepted : List VoteOrv
  pub filtered : List VoteOrv
  pub min_stake : ℕ

-- The loop of `collect_votes_with_audit`: the accepted votes and the others.
unfoldable partition : ℕ → List VoteOrv → List VoteOrv × List VoteOrv
partition min_stake [] = ([], [])
partition min_stake (v ∷ votes) =
    let (accepted, filtered) = partition min_stake votes in
    if leb min_stake v.delegated_stake then (v ∷ accepted, filtered) else (accepted, v ∷ filtered)

unfoldable collect_votes_with_audit : List VoteOrv → ℕ → CollectedVotes
collect_votes_with_audit votes total_supply =
    let min_stake = total_supply / min_representative_stake_denom in
    let parts = partition min_stake votes in
    record { accepted = parts.0; filtered = parts.1; min_stake = min_stake }

unfoldable collect_votes : List VoteOrv → ℕ → List VoteOrv
collect_votes votes total_supply = (collect_votes_with_audit votes total_supply).accepted
