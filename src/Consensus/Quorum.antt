-- ===== src/Consensus/Quorum.antt =====
-- crates/arxia-consensus/src/quorum.rs
use arxia.Prelude.{
  ℕ, ◌*◌, ◌%◌, ◌^◌, ◌≤◌, ◌<◌, ◌≡◌, ◌↔◌, Bool, true, false, ◌&&◌, ltb, leb, ◌==◌, if◌then◌else◌,
  arith,
}

pub record QuorumResult : Type 0 where
  pub reached : Bool
  voted_reps : ℕ
  total_reps : ℕ
  pub voted_stake : ℕ
  pub total_supply : ℕ

-- The products of the release build wrap.
rep_quorum : ℕ → ℕ → Bool
rep_quorum voted_reps total_reps =
    if total_reps == 0 then false else leb (total_reps * 2 % 2 ^ 64) (voted_reps * 3 % 2 ^ 64)

-- `checked_mul(5).is_some_and(…)`
stake_quorum : ℕ → ℕ → Bool
stake_quorum voted_stake total_supply =
    if total_supply == 0
    then false
    else ltb (voted_stake * 5) (2 ^ 64) && leb total_supply (voted_stake * 5)

check_quorum : ℕ → ℕ → ℕ → ℕ → QuorumResult
check_quorum voted_reps total_reps voted_stake total_supply = record {
  reached = rep_quorum voted_reps total_reps && stake_quorum voted_stake total_supply;
  voted_reps = voted_reps;
  total_reps = total_reps;
  voted_stake = voted_stake;
  total_supply = total_supply;
}

-- Where both numbers of representatives are below 2^62 and five times the voted stake is below
-- 2^64: a quorum is reached exactly if there are representatives and a supply, at least two thirds
-- of the former have voted, and the voted stake is at least a fifth of the latter.
check_quorum_iff :
    (voted_reps total_reps voted_stake total_supply : ℕ)
    → voted_reps < 2 ^ 62
    → total_reps < 2 ^ 62
    → 5 * voted_stake < 2 ^ 64
    → ((check_quorum voted_reps total_reps voted_stake total_supply).reached ≡ true) ↔ (
        (0 < total_reps)
        × (2 * total_reps ≤ 3 * voted_reps)
        × (0 < total_supply)
        × (total_supply ≤ 5 * voted_stake))
unfolding check_quorum rep_quorum stake_quorum
check_quorum_iff voted_reps total_reps voted_stake total_supply a b c = ground arith
