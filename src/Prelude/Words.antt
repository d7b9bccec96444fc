-- ===== src/Prelude/Words.antt =====
-- Machine integers as native numbers: `u64`, `u16`, `usize` (64 bits), and their byte forms.
-- The release profile has no overflow checks, so a plain `+` wraps.
use Prim.Native.Nat.{ℕ, ◌+◌, ◌-◌, ◌*◌, ◌/◌, ◌%◌, ◌^◌, ◌<◌}
use mathlib.Core.Path.{◌≡◌, refl, ap}
use mathlib.Core.Option.{Option, none, some}
use mathlib.Core.List.{List, [], ◌∷◌}
use native.Mathlib.Omega.{arith}
use arxia.Prelude.Tests.{ltb, if◌then◌else◌}
use arxia.Prelude.Lists.{length}

abbrev pub Bytes : Type 0
Bytes = List ℕ

abbrev pub IsByte : ℕ → Type 0
IsByte b = b < 256

abbrev pub IsU64 : ℕ → Type 0
IsU64 n = n < 2 ^ 64

-- `u64::MAX`
abbrev pub u64_max : ℕ
u64_max = 2 ^ 64 - 1

-- `a + b` of the release build
abbrev pub wrap_add : ℕ → ℕ → ℕ
wrap_add a b = (a + b) % 2 ^ 64

abbrev pub saturating_add : ℕ → ℕ → ℕ
saturating_add a b = if ltb (a + b) (2 ^ 64) then a + b else u64_max

abbrev pub saturating_mul : ℕ → ℕ → ℕ
saturating_mul a b = if ltb (a * b) (2 ^ 64) then a * b else u64_max

abbrev pub checked_add : ℕ → ℕ → Option ℕ
checked_add a b = if ltb (a + b) (2 ^ 64) then some (a + b) else none

-- `u64::to_be_bytes`
pub to_be_bytes : ℕ → Bytes
to_be_bytes n =
    n / 2 ^ 56 % 256
    ∷ n / 2 ^ 48 % 256
    ∷ n / 2 ^ 40 % 256
    ∷ n / 2 ^ 32 % 256
    ∷ n / 2 ^ 24 % 256
    ∷ n / 2 ^ 16 % 256
    ∷ n / 2 ^ 8 % 256
    ∷ n % 256
    ∷ []

-- `u64::from_be_bytes`; `none` where the slice is not eight bytes long.
pub from_be_bytes : Bytes → Option ℕ
from_be_bytes (a ∷ b ∷ c ∷ d ∷ e ∷ f ∷ g ∷ h ∷ []) =
    some
      (a * 2 ^ 56 + b * 2 ^ 48 + c * 2 ^ 40 + d * 2 ^ 32 + e * 2 ^ 24 + f * 2 ^ 16 + g * 2 ^ 8 + h)
from_be_bytes _ = none

pub length-to_be_bytes : (n : ℕ) → length (to_be_bytes n) ≡ 8
unfolding to_be_bytes
length-to_be_bytes n = refl

pub from-to_be_bytes : (n : ℕ) → IsU64 n → from_be_bytes (to_be_bytes n) ≡ some n
unfolding to_be_bytes from_be_bytes
from-to_be_bytes n h = ap some (omega arith)

pub to_be_bytes-injective : (m n : ℕ) → IsU64 m → IsU64 n → to_be_bytes m ≡ to_be_bytes n → m ≡ n
to_be_bytes-injective m n hm hn e =
    cc (from-to_be_bytes m hm, from-to_be_bytes n hn, ap from_be_bytes e)
