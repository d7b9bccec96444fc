-- ===== src/Prelude/Map/Sums.antt =====
-- Sums of the numbers of a map.
use Prim.Native.Nat.{ℕ, ◌+◌, ◌≤◌}
use mathlib.Core.Path.{◌≡◌, refl, sym, ap, subst}
use mathlib.Core.Bool.{Bool, true, false}
use mathlib.Core.Logic.{inl, inr}
use mathlib.Core.Option.{Option, none, some}
use mathlib.Core.List.{[], ◌∷◌}
use native.Mathlib.Omega.{arith}
use arxia.Prelude.Tests.{Bool-cases, if◌then◌else◌}
use arxia.Prelude.Ord.{Ord, eqb, eqb_iff, eqb_refl}
use arxia.Prelude.Words.{saturating_add, u64_max}
use arxia.Prelude.Map.{Map, lookup, insert, contains_key, IsSorted, After}
use arxia.Prelude.Map.Laws.{lookup-After, After-trans}

-- A missing number is 0.
abbrev pub or_zero : Option ℕ → ℕ
or_zero none = 0
or_zero (some n) = n

module _ {ℓ} {K : Type ℓ} where
  -- `values().copied().fold(t, u64::saturating_add)`
  unfoldable pub fold_values : ℕ → Map K ℕ → ℕ
  fold_values t [] = t
  fold_values t ((k, n) ∷ m) = fold_values (saturating_add t n) m

  unfoldable pub sum_values : Map K ℕ → ℕ
  sum_values [] = 0
  sum_values ((k, n) ∷ m) = n + sum_values m

  -- The numbers of the keys that pass a test.
  pub sum_where : (K → Bool) → Map K ℕ → ℕ
  sum_where p [] = 0
  sum_where p ((k, n) ∷ m) = (if p k then n else 0) + sum_where p m

  pub fold_values-sum_values :
      (t : ℕ) (m : Map K ℕ) → t + sum_values m ≤ u64_max → fold_values t m ≡ t + sum_values m
  unfolding fold_values sum_values
  fold_values-sum_values t [] le = omega arith
  fold_values-sum_values t ((k, n) ∷ m) le =
      ground (arith, fold_values-sum_values (saturating_add t n) m)

  pub sum_where_le : (p : K → Bool) (m : Map K ℕ) → sum_where p m ≤ sum_values m
  unfolding sum_where sum_values
  sum_where_le p [] = omega arith
  sum_where_le p ((k, n) ∷ m) = ground (arith, sum_where_le p m)

  pub sum_where_ext :
      (p q : K → Bool) (m : Map K ℕ) → ((k : K) → p k ≡ q k) → sum_where p m ≡ sum_where q m
  unfolding sum_where
  sum_where_ext p q [] e = refl
  sum_where_ext p q ((k, n) ∷ m) e = ground (arith, sum_where_ext p q m e, e k)

  pub sum_where_none : (m : Map K ℕ) → sum_where (λ k. false) m ≡ 0
  unfolding sum_where
  sum_where_none [] = refl
  sum_where_none ((k, n) ∷ m) = ground (arith, sum_where_none m)

module _ {ℓ} {K : Type ℓ} ⦃o : Ord K⦄ where
  pub sum_values-insert :
      (k : K) (n : ℕ) (m : Map K ℕ)
      → IsSorted m
      → sum_values (insert k n m) + or_zero (lookup k m) ≡ sum_values m + n
  unfolding sum_values insert lookup
  sum_values-insert k n [] s = omega arith
  sum_values-insert k n ((j, i) ∷ m) s =
      ground (arith, sum_values-insert k n m, lookup-After k m, After-trans k j m)

  pub or_zero_le : (k : K) (m : Map K ℕ) → or_zero (lookup k m) ≤ sum_values m
  unfolding sum_values lookup
  or_zero_le k [] = omega arith
  or_zero_le k ((j, n) ∷ m) = ground (arith, or_zero_le k m)

  -- Tests that agree on the keys of the map.
  pub sum_where_agree :
      (p q : K → Bool) (m : Map K ℕ)
      → ((k : K) → contains_key k m ≡ true → p k ≡ q k)
      → sum_where p m ≡ sum_where q m
  unfolding sum_where lookup
  sum_where_agree p q [] e = refl
  sum_where_agree p q ((k, n) ∷ m) e =
      let here : p k ≡ q k = e k (ground (arith, eqb_refl k)) in
      ground (arith, here, sum_where_agree p q m (λ j h. e j (ground (arith, h))))

  -- A test that passes one key more.
  pub sum_where_more :
      (p q : K → Bool) (k : K) (m : Map K ℕ)
      → IsSorted m
      → p k ≡ false
      → q k ≡ true
      → ((j : K) → eqb j k ≡ false → p j ≡ q j)
      → sum_where q m ≡ sum_where p m + or_zero (lookup k m)
  unfolding sum_where lookup
  sum_where_more p q k [] s a b e = omega arith
  sum_where_more p q k ((j, n) ∷ m) s a b e =
      let rest = sum_where_more p q k m s.1 a b e in
      elim (Bool-cases (eqb k j)) [
        | inl same ↦
            let r = (eqb_iff k j).0 same in
            ground
              (arith, rest, lookup-After k m (subst (λ i. After i m) (sym r) s.0), ap p r, ap q r)
        | inr other ↦ ground (arith, rest, e j, eqb_iff j k, eqb_iff k j)
      ]
