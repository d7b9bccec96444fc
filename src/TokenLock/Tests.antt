-- ===== src/TokenLock/Tests.antt =====
-- A lock and a schedule at which the theorems on them are applied.
use arxia.Prelude.{◌+◌, ◌≤◌, ◌≡◌, false, [], ◌∷◌, arith}
use arxia.TokenLock.{TokenLock, VestingSchedule}
use arxia.TokenLock.Claims
use arxia.TokenLock.Vesting.{IsMachine}
use arxia.TokenLock.Claims.{paid_lem, most_vested}

abbrev lock : TokenLock
lock = record { owner = []; amount = 7; unlock_at = 10; claimed = false }

abbrev schedule : VestingSchedule
schedule = record {
  owner = [];
  total_amount = 1000;
  start_at = 0;
  cliff_at = 25;
  end_at = 100;
  claimed = 0;
}

schedule-IsMachine : IsMachine schedule
schedule-IsMachine = record { total_fits = omega arith; end_fits = omega arith }

paid_lem_example :
    (0 + Claims.paid schedule (30 ∷ 20 ∷ 60 ∷ []) ≡ most_vested schedule 0 (30 ∷ 20 ∷ 60 ∷ []))
    × (0 + Claims.paid schedule (30 ∷ 20 ∷ 60 ∷ []) ≤ 1000)
paid_lem_example = paid_lem schedule (30 ∷ 20 ∷ 60 ∷ []) schedule-IsMachine (omega arith)
