-- ===== src/Prelude/Elem.antt =====
-- Membership in a list of keys as a test, and lists that hold no key twice.
use mathlib.Core.Path.{◌≡◌, refl}
use mathlib.Core.Bool.{Bool, true, false, ◌||◌}
use mathlib.Core.List.{List, [], ◌∷◌, ◌++◌}
use native.Mathlib.Omega.{arith}
use arxia.Prelude.Ord.{Ord, eqb, eqb_iff}

module _ {ℓ} {K : Type ℓ} ⦃o : Ord K⦄ where
  abbrev pub elem : K → List K → Bool
  elem x [] = false
  elem x (y ∷ ys) = eqb x y || elem x ys

  abbrev pub IsNodup : List K → Type 0
  IsNodup [] = Unit {0}
  IsNodup (x ∷ xs) = (elem x xs ≡ false) × IsNodup xs

  pub elem-append : (x : K) (xs ys : List K) → elem x (xs ++ ys) ≡ (elem x xs || elem x ys)
  elem-append x [] ys = refl
  elem-append x (z ∷ xs) ys = ground (arith, elem-append x xs ys)

  pub IsNodup-append :
      (xs ys : List K)
      → IsNodup xs
      → IsNodup ys
      → ((x : K) → elem x xs ≡ true → elem x ys ≡ false)
      → IsNodup (xs ++ ys)
  IsNodup-append [] ys h k d = k
  IsNodup-append (x ∷ xs) ys h k d = (
    ground (arith, elem-append x xs ys, h.0, d x, eqb_iff x x),
    IsNodup-append xs ys h.1 k (λ y e. d y (ground (arith, e))),
  )
