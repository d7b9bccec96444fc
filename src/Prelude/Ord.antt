-- ===== src/Prelude/Ord.antt =====
-- The total orders of the map keys: numbers, Rust strings and byte arrays (bytewise), and pairs.
use Prim.Native.Nat.{ℕ, compare, Ordering}
use Prim.Native.Nat.Ordering.{lt, eq, gt}
use mathlib.Core.Path.{◌≡◌, refl}
use mathlib.Core.Logic.{◌↔◌}
use mathlib.Core.Bool.{Bool, true, false}
use mathlib.Core.List.{List, [], ◌∷◌}
use native.Mathlib.Omega.{arith}

-- `Ordering::reverse`
abbrev flip : Ordering → Ordering
flip lt = gt
flip eq = eq
flip gt = lt

-- A comparison that reverses with its arguments, is `Equal` on equal ones alone, and is transitive.
pub record IsTotal {ℓ} {K : Type ℓ} (cmp : K → K → Ordering) : Type ℓ where
  pub cmp_flip : (x y : K) → cmp y x ≡ flip (cmp x y)
  pub eq_of_cmp : (x y : K) → cmp x y ≡ eq → x ≡ y
  pub cmp_trans : (x y z : K) → cmp x y ≡ lt → cmp y z ≡ lt → cmp x z ≡ lt

pub record Ord {ℓ} (K : Type ℓ) : Type ℓ where
  pub cmp : K → K → Ordering
  pub total : IsTotal cmp
  pub open total use *

module _ {ℓ} {K : Type ℓ} ⦃o : Ord K⦄ where
  -- `==` of the keys
  abbrev pub eqb : K → K → Bool
  eqb a b = elim (o.cmp a b) [ eq ↦ true | _ ↦ false ]

  pub eqb_iff : (a b : K) → (eqb a b ≡ true) ↔ (a ≡ b)
  eqb_iff a b = ground (arith, o.eq_of_cmp a b, o.cmp_flip a a)

  pub eqb_refl : (a : K) → eqb a a ≡ true
  eqb_refl a = (eqb_iff a a).1 refl

pub compare-IsTotal : IsTotal compare
compare-IsTotal = ground arith

instance abbrev pub nat_ord : Ord ℕ
nat_ord = record { cmp = compare; total = compare-IsTotal }

abbrev pub Str : Type 0
Str = List ℕ

-- `str::cmp` compares the bytes in lexicographic order.
unfoldable pub cmp_str : Str → Str → Ordering
cmp_str [] [] = eq
cmp_str [] (b ∷ bs) = lt
cmp_str (a ∷ as') [] = gt
cmp_str (a ∷ as') (b ∷ bs) = elim (compare a b) [ lt ↦ lt | gt ↦ gt | eq ↦ cmp_str as' bs ]

str_eq_of : (s t : Str) → cmp_str s t ≡ eq → s ≡ t
unfolding cmp_str
str_eq_of [] [] h = refl
str_eq_of [] (b ∷ t) h = cc
str_eq_of (a ∷ s) [] h = cc
str_eq_of (a ∷ s) (b ∷ t) h = ground (arith, str_eq_of s t)

str_flip : (s t : Str) → cmp_str t s ≡ flip (cmp_str s t)
unfolding cmp_str
str_flip [] [] = refl
str_flip [] (b ∷ t) = refl
str_flip (a ∷ s) [] = refl
str_flip (a ∷ s) (b ∷ t) = ground (arith, str_flip s t)

str_trans : (s t u : Str) → cmp_str s t ≡ lt → cmp_str t u ≡ lt → cmp_str s u ≡ lt
unfolding cmp_str
str_trans s t [] h k = absurd (beyond t k)
  where
    beyond : (t : Str) → cmp_str t [] ≡ lt → ⊥
    beyond [] k = cc
    beyond (b ∷ t) k = cc
str_trans [] t (c ∷ u) h k = refl
str_trans (a ∷ s) [] (c ∷ u) h k = cc
str_trans (a ∷ s) (b ∷ t) (c ∷ u) h k = ground (arith, str_trans s t u)

pub str-IsTotal : IsTotal cmp_str
str-IsTotal = record { cmp_flip = str_flip; eq_of_cmp = str_eq_of; cmp_trans = str_trans }

instance abbrev pub str_ord : Ord Str
str_ord = record { cmp = cmp_str; total = str-IsTotal }

module _ {ℓ κ} {A : Type ℓ} {B : Type κ} ⦃a : Ord A⦄ ⦃b : Ord B⦄ where
  -- `(A, B)` compares the first parts, then the second.
  abbrev cmp_pair : A × B → A × B → Ordering
  cmp_pair x y = elim (a.cmp x.0 y.0) [ lt ↦ lt | gt ↦ gt | eq ↦ b.cmp x.1 y.1 ]

  pub pair-IsTotal : IsTotal {K = A × B} cmp_pair
  pair-IsTotal = record {
    cmp_flip = λ p q. ground (arith, a.cmp_flip p.0 q.0, b.cmp_flip p.1 q.1);
    eq_of_cmp = λ p q. ground (arith, a.eq_of_cmp p.0 q.0, b.eq_of_cmp p.1 q.1);
    cmp_trans =
        λ p q r. grind (arith, a.eq_of_cmp p.0 q.0, a.eq_of_cmp q.0 r.0, a.cmp_trans, b.cmp_trans);
  }

  instance abbrev pub pair_ord : Ord (A × B)
  pair_ord = record { cmp = cmp_pair; total = pair-IsTotal }
