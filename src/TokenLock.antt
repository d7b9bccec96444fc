-- ===== src/TokenLock.antt =====
-- contracts/token-lock/src/lib.rs: the deadline lock and the vesting schedule.
pub mod Lock
pub mod Vesting
pub mod Claims
mod Tests
use arxia.Prelude.{
  ℕ, ◌+◌, ◌-◌, ◌*◌, ◌/◌, ◌^◌, Bool, true, false, ◌||◌, ltb, leb, ◌==◌, if◌then◌else◌,
}
use arxia.Prelude.Ord.{Str}
use arxia.Prelude.Words.{saturating_add, u64_max}
use arxia.Prelude.Result.{Result, ok, err}

pub record TokenLock : Type 0 where
  pub owner : Str
  pub amount : ℕ
  pub unlock_at : ℕ
  pub claimed : Bool

-- The `&'static str` of a refusal.
pub data LockError : Type 0 where
  already_claimed not_elapsed : LockError

-- `TokenLock::new`
new_lock : Str → ℕ → ℕ → TokenLock
new_lock owner amount unlock_at = record {
  owner = owner;
  amount = amount;
  unlock_at = unlock_at;
  claimed = false;
}

-- `TokenLock::claim`
pub claim_lock : TokenLock → ℕ → Result LockError ℕ × TokenLock
claim_lock l now =
    if l.claimed
    then (err already_claimed, l)
    else if ltb now l.unlock_at
    then (err not_elapsed, l)
    else (ok l.amount, record l { claimed = true })

pub is_unlocked : TokenLock → ℕ → Bool
is_unlocked l now = leb l.unlock_at now

pub data VestingError : Type 0 where
  nothing_to_claim invalid_schedule : VestingError

pub record VestingSchedule : Type 0 where
  pub owner : Str
  pub total_amount : ℕ
  pub start_at : ℕ
  pub cliff_at : ℕ
  pub end_at : ℕ
  pub claimed : ℕ

-- `VestingSchedule::new`
pub new : Str → ℕ → ℕ → ℕ → ℕ → VestingSchedule
new owner total_amount start_at cliff_at end_at = record {
  owner = owner;
  total_amount = total_amount;
  start_at = start_at;
  cliff_at = cliff_at;
  end_at = end_at;
  claimed = 0;
}

pub new_checked : Str → ℕ → ℕ → ℕ → ℕ → Result VestingError VestingSchedule
unfolding new
new_checked owner total_amount start_at cliff_at end_at =
    if ltb cliff_at start_at || ltb end_at cliff_at || leb end_at start_at
    then err invalid_schedule
    else ok (new owner total_amount start_at cliff_at end_at)

-- `(total as u128).saturating_mul(elapsed as u128) / (duration as u128)`, then back to `u64`.
pub linear_part : ℕ → ℕ → ℕ → ℕ
linear_part total elapsed duration =
    let product = if ltb (total * elapsed) (2 ^ 128) then total * elapsed else 2 ^ 128 - 1 in
    let result = product / duration in if ltb result (2 ^ 64) then result else u64_max

-- `saturating_sub` is the subtraction of ℕ.
pub vested_at : VestingSchedule → ℕ → ℕ
vested_at s now =
    if ltb now s.cliff_at
    then 0
    else if leb s.end_at now
    then s.total_amount
    else if (s.end_at - s.start_at) == 0
    then s.total_amount
    else linear_part s.total_amount (now - s.start_at) (s.end_at - s.start_at)

pub claimable_at : VestingSchedule → ℕ → ℕ
claimable_at s now = vested_at s now - s.claimed

-- `VestingSchedule::claim`
pub claim : VestingSchedule → ℕ → Result VestingError ℕ × VestingSchedule
claim s now = if claimable_at s now == 0 then (err nothing_to_claim, s) else (
  ok (claimable_at s now),
  record s { claimed = saturating_add s.claimed (claimable_at s now) },
)
