-- ===== src/TokenLock/Claims.antt =====
-- Any sequence of claims on a vesting schedule.
use arxia.Prelude.{
  ℕ, ◌+◌, ◌-◌, ◌≤◌, ◌≡◌, refl, List, [], ◌∷◌, arith, ◌==◌, if◌then◌else◌, max, Bool-cases, inl, inr,
}
use arxia.Prelude.Result.{Result, ok, err, panic}
use arxia.TokenLock.{
  VestingSchedule, VestingError, nothing_to_claim, vested_at, claimable_at, claim,
}
use arxia.TokenLock.Vesting.{IsMachine, vested_at-le-total}

abbrev pub payout : Result VestingError ℕ → ℕ
payout (ok n) = n
payout (err e) = 0
payout panic = 0

-- A claim pays what is vested and not yet claimed, records exactly that, and is refused, with
-- nothing changed, exactly when there is nothing to pay. The saturation of `claimed` is not reached.
claim_lem :
    (s : VestingSchedule) (now : ℕ)
    → IsMachine s
    → s.claimed ≤ s.total_amount
    → claim s now ≡ (
        if (vested_at s now - s.claimed) == 0
        then (err nothing_to_claim, s)
        else (ok (vested_at s now - s.claimed), record s { claimed = vested_at s now }))
unfolding claim claimable_at
claim_lem s now m h = ground (arith, vested_at-le-total s now m)

-- The sum paid by claims at the given times.
pub paid : VestingSchedule → List ℕ → ℕ
paid s [] = 0
paid s (now ∷ later) = payout (claim s now).0 + paid (claim s now).1 later

-- The most that is vested at one of the times, and at least `low`.
pub most_vested : VestingSchedule → ℕ → List ℕ → ℕ
most_vested s low [] = low
most_vested s low (now ∷ later) = most_vested s (max low (vested_at s now)) later

-- The curve does not look at `claimed`.
most_vested_claimed :
    (s : VestingSchedule) (n low : ℕ) (times : List ℕ)
    → most_vested (record s { claimed = n }) low times ≡ most_vested s low times
unfolding most_vested vested_at
most_vested_claimed s n low [] = refl
most_vested_claimed s n low (now ∷ later) =
    most_vested_claimed s n (max low (vested_at s now)) later

most_vested-le :
    (s : VestingSchedule) (low : ℕ) (times : List ℕ)
    → IsMachine s
    → low ≤ s.total_amount
    → most_vested s low times ≤ s.total_amount
unfolding most_vested
most_vested-le s low [] m h = h
most_vested-le s low (now ∷ later) m h =
    most_vested-le s (max low (vested_at s now)) later m
      (ground (arith, vested_at-le-total s now m))

paid-most_vested :
    (s : VestingSchedule) (times : List ℕ)
    → IsMachine s
    → s.claimed ≤ s.total_amount
    → s.claimed + paid s times ≡ most_vested s s.claimed times
unfolding paid most_vested
paid-most_vested s [] m h = omega arith
paid-most_vested s (now ∷ later) m h =
    let v : ℕ = vested_at s now in
    elim (Bool-cases ((v - s.claimed) == 0)) [
      | inl none_left ↦ ground (arith, claim_lem s now m h, paid-most_vested s later m h)
      | inr some_left ↦ ground (
        arith,
        claim_lem s now m h,
        vested_at-le-total s now m,
        most_vested_claimed s v v later,
        paid-most_vested (record s { claimed = v }) later (omega arith)
            (omega (arith, vested_at-le-total s now m)),
      )
    ]

-- On a schedule of `u64` values with no more claimed than its total: whatever the times of the
-- claims, in any order, what was claimed before and what they pay comes to the most that was
-- vested at one of the times (or to what was claimed before, if that is more), and so never to
-- more than the total.
pub paid_lem :
    (s : VestingSchedule) (times : List ℕ)
    → IsMachine s
    → s.claimed ≤ s.total_amount
    → (s.claimed + paid s times ≡ most_vested s s.claimed times)
      × (s.claimed + paid s times ≤ s.total_amount)
paid_lem s times m h =
    let e = paid-most_vested s times m h in
    (e, omega (arith, e, most_vested-le s s.claimed times m h))
