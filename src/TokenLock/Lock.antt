-- ===== src/TokenLock/Lock.antt =====
-- The deadline lock pays once, and not before its deadline.
use arxia.Prelude.{ℕ, ◌+◌, ◌≡◌, refl, List, [], ◌∷◌, arith, Bool, true, false, if◌then◌else◌}
use arxia.Prelude.Result.{Result, ok, err, panic}
use arxia.TokenLock.{TokenLock, LockError, claim_lock, is_unlocked}

abbrev pub payout : Result LockError ℕ → ℕ
payout (ok n) = n
payout (err e) = 0
payout panic = 0

-- The sum paid by claims at the given times.
pub paid : TokenLock → List ℕ → ℕ
paid l [] = 0
paid l (now ∷ later) = payout (claim_lock l now).0 + paid (claim_lock l now).1 later

-- Whether one of the times is at or after the deadline.
any_unlocked : TokenLock → List ℕ → Bool
any_unlocked l [] = false
any_unlocked l (now ∷ later) = if is_unlocked l now then true else any_unlocked l later

paid_claimed : (l : TokenLock) (times : List ℕ) → l.claimed ≡ true → paid l times ≡ 0
unfolding paid claim_lock
paid_claimed l [] h = refl
paid_claimed l (now ∷ later) h = ground (arith, paid_claimed l later h)

-- However often an unclaimed lock is claimed, it pays its amount once if one of the times has
-- reached the deadline, and nothing otherwise.
paid_once :
    (l : TokenLock) (times : List ℕ)
    → l.claimed ≡ false
    → paid l times ≡ (if any_unlocked l times then l.amount else 0)
unfolding paid any_unlocked claim_lock is_unlocked
paid_once l [] h = refl
paid_once l (now ∷ later) h =
    ground (arith, paid_once l later h, paid_claimed (record l { claimed = true }) later refl)
