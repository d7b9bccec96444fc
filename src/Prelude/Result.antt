-- ===== src/Prelude/Result.antt =====
-- `Result<A, E>`, with the calls that panic as a third outcome, and the early return by `?`.
use mathlib.Core.Path.{◌≡◌, refl}
use mathlib.Core.Bool.{Bool, true, false}
use mathlib.Core.Logic.{◌⊎◌, inl, inr}
use mathlib.Core.Option.{Option, none, some}

-- `panic` is no Rust value: the call ended in a panic.
pub data Result {ℓ} (E : Type 0) (A : Type ℓ) : Type ℓ where
  ok : A → Result E A
  err : E → Result E A
  panic : Result E A

infixl 5 ◌>>=◌ ◌>>◌
abbrev pub ◌>>=◌ {ℓ κ} :
    {E : Type 0} {A : Type ℓ} {B : Type κ} → Result E A → (A → Result E B) → Result E B
ok a >>= f = f a
err e >>= f = err e
panic >>= f = panic

abbrev pub ◌>>◌ {ℓ} : {E : Type 0} {B : Type ℓ} → Result E (Unit {0}) → Result E B → Result E B
m >> k = m >>= λ _. k

module _ {ℓ} {E : Type 0} {A : Type ℓ} where
  -- `ok_or(e)?`
  abbrev pub ok_or : Option A → E → Result E A
  ok_or none e = err e
  ok_or (some a) e = ok a

  -- `expect(…)`, and slices that may be out of range.
  abbrev pub expect : Option A → Result E A
  expect none = panic
  expect (some a) = ok a

  -- `map_err(|_| e)`
  abbrev pub map_err : {D : Type 0} → (D → E) → Result D A → Result E A
  map_err f (ok a) = ok a
  map_err f (err d) = err (f d)
  map_err f panic = panic

  abbrev pub is_ok : Result E A → Bool
  is_ok (ok a) = true
  is_ok _ = false

  pub Result-cases : (r : Result E A) → ((a : A) × (r ≡ ok a)) ⊎ ((is_ok r ≡ false))
  Result-cases (ok a) = inl (a, refl)
  Result-cases (err e) = inr refl
  Result-cases panic = inr refl

-- `if !test { return Err(e) }`
abbrev pub ensure : {E : Type 0} → Bool → E → Result E (Unit {0})
ensure true e = ok tt
ensure false e = err e

pub then_assoc {ℓ} :
    {E : Type 0} {B : Type ℓ} (m n : Result E (Unit {0})) (k : Result E B)
    → ((m >> n) >> k) ≡ (m >> (n >> k))
then_assoc (ok a) n k = refl
then_assoc (err e) n k = refl
then_assoc panic n k = refl

pub then-ok_map {ℓ κ} :
    {E : Type 0} {A : Type ℓ} {B : Type κ} (m : Result E (Unit {0})) (a : A) (f : A → B)
    → ((m >> ok a) >>= λ a. ok (f a)) ≡ (m >> ok (f a))
then-ok_map (ok _) a f = refl
then-ok_map (err e) a f = refl
then-ok_map panic a f = refl

-- A chain that succeeds has succeeded at each step.
pub bind-ok {ℓ κ} :
    {E : Type 0} {A : Type ℓ} {B : Type κ} (m : Result E A) (f : A → Result E B) (b : B)
    → (m >>= f) ≡ ok b
    → (a : A) × (m ≡ ok a) × (f a ≡ ok b)
bind-ok (ok a) f b e = (a, refl, e)
bind-ok (err d) f b e = cc
bind-ok panic f b e = cc

pub then-ok {ℓ} :
    {E : Type 0} {B : Type ℓ} (m : Result E (Unit {0})) (k : Result E B) (b : B)
    → (m >> k) ≡ ok b
    → (m ≡ ok tt) × (k ≡ ok b)
then-ok (ok a) k b e = (refl, e)
then-ok (err d) k b e = cc
then-ok panic k b e = cc
