-- ===== src/TokenLock/Vesting.antt =====
-- The vesting curve: exact, bounded by the total, and never falling.
use native.Mathlib.Nat.{div-le_of_le-mul, le-div_iff_mul-le, div-mul-le_self, le_trans}
use arxia.Prelude.{◌↔◌, ℕ, ◌-◌, ◌*◌, ◌/◌, ◌^◌, ◌≤◌, ◌<◌, ◌≡◌, arith, ltb, leb, if◌then◌else◌}
use arxia.Prelude.Words.{IsU64}
use arxia.Prelude.Result.{ok, err}
use arxia.Prelude.Ord.{Str}
use arxia.TokenLock.{VestingSchedule, linear_part, vested_at, new_checked, new, invalid_schedule}

-- The fields are of type `u64`.
pub record IsMachine (s : VestingSchedule) : Type 0 where
  pub total_fits : IsU64 s.total_amount
  pub end_fits : IsU64 s.end_at

quotient_bound : (t e d : ℕ) → 0 < d → e ≤ d → t * e / d ≤ t
quotient_bound t e d p h = div-le_of_le-mul d (grind arith)

product_mono : (a b n : ℕ) → a ≤ b → a * n ≤ b * n
product_mono a b n h = grind arith

product_bound : (t e : ℕ) → t < 2 ^ 64 → e < 2 ^ 64 → t * e < 2 ^ 128
product_bound t e p q = omega (arith, product_mono t (2 ^ 64 - 1) e (omega arith))

quotient_mono : (a b d : ℕ) → 0 < d → a ≤ b → a / d ≤ b / d
quotient_mono a b d p h = (le-div_iff_mul-le p).1 (le_trans (div-mul-le_self a d) h)

scaled_mono : (t a b : ℕ) → a ≤ b → t * a ≤ t * b
scaled_mono t a b h = grind arith

-- Within a schedule neither of the two saturations is reached.
linear_part-exact :
    (t e d : ℕ) → t < 2 ^ 64 → e < 2 ^ 64 → 0 < d → e ≤ d → linear_part t e d ≡ t * e / d
unfolding linear_part
linear_part-exact t e d ht he p h =
    ground (arith, product_bound t e ht he, quotient_bound t e d p h)

-- For a schedule of `u64` values whose end is after its start and whose cliff is not before it:
-- nothing before the cliff, everything from the end on, and between them the proportion `total *
-- (now - start) / (end - start)`, rounded down, with no saturation.
vested_at-exact :
    (s : VestingSchedule) (now : ℕ)
    → IsMachine s
    → s.start_at < s.end_at
    → s.start_at ≤ s.cliff_at
    → vested_at s now ≡ (
        if ltb now s.cliff_at
        then 0
        else if leb s.end_at now
        then s.total_amount
        else s.total_amount * (now - s.start_at) / (s.end_at - s.start_at))
unfolding vested_at
vested_at-exact s now m h k =
    ground (arith, linear_part-exact s.total_amount (now - s.start_at) (s.end_at - s.start_at))

-- Never more than the total is vested, for any schedule, also one that was not validated.
pub vested_at-le-total :
    (s : VestingSchedule) (now : ℕ) → IsMachine s → vested_at s now ≤ s.total_amount
unfolding vested_at
vested_at-le-total s now m = ground (
  arith,
  linear_part-exact s.total_amount (now - s.start_at) (s.end_at - s.start_at),
  quotient_bound s.total_amount (now - s.start_at) (s.end_at - s.start_at),
)

-- What is vested never falls as time passes, for any schedule of `u64` values, also one that was
-- not validated.
vested_at_mono :
    (s : VestingSchedule) (now later : ℕ)
    → IsMachine s
    → now ≤ later
    → vested_at s now ≤ vested_at s later
unfolding vested_at
vested_at_mono s now later m h = ground (
  arith,
  vested_at-le-total s now m,
  linear_part-exact s.total_amount (now - s.start_at) (s.end_at - s.start_at),
  linear_part-exact s.total_amount (later - s.start_at) (s.end_at - s.start_at),
  quotient_mono (s.total_amount * (now - s.start_at)) (s.total_amount * (later - s.start_at))
      (s.end_at - s.start_at),
  scaled_mono s.total_amount (now - s.start_at) (later - s.start_at),
)

-- `new_checked` accepts exactly the schedules whose cliff lies between start and end, the end after
-- the start, and then has stored the arguments with nothing claimed.
new_checked_iff :
    (owner : Str) (total start cliff end : ℕ)
    → ((new_checked owner total start cliff end ≡ ok (new owner total start cliff end))
        ↔ ((start ≤ cliff) × (cliff ≤ end) × (start < end)))
      × ((new_checked owner total start cliff end ≡ err invalid_schedule)
          ↔ ¬ ((start ≤ cliff) × (cliff ≤ end) × (start < end)))
unfolding new_checked
new_checked_iff owner total start cliff end =
    (((λ h. ground arith), (λ h. ground arith)), ((λ h k. ground arith), (λ h. ground arith)))
