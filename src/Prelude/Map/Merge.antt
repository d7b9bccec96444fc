-- ===== src/Prelude/Map/Merge.antt =====
-- Loops over the entries of a map that update the entry of the same key of another one:
-- `for (k, w) in &other { let e = self.entry(k).or_default(); *e = … }`.
use mathlib.Core.Path.{◌≡◌, refl}
use mathlib.Core.Option.{Option, none, some}
use mathlib.Core.List.{[], ◌∷◌}
use native.Mathlib.Omega.{arith}
use arxia.Prelude.Ord.{Ord}
use arxia.Prelude.Map.{Map, lookup, insert, IsSorted}
use arxia.Prelude.Map.Laws.{lookup-insert, insert-IsSorted, lookup-After}

-- The entry of a key after the loop.
abbrev pub merged {κ μ} :
    {V : Type κ} {W : Type μ} → (Option V → W → V) → Option V → Option W → Option V
merged f v none = v
merged f v (some w) = some (f v w)

module _ {ℓ κ μ} {K : Type ℓ} {V : Type κ} {W : Type μ} ⦃o : Ord K⦄ (f : Option V → W → V) where
  -- `f` makes the new entry from the old one, if there is one.
  unfoldable pub merge_by : Map K V → Map K W → Map K V
  merge_by m [] = m
  merge_by m ((k, w) ∷ other) = merge_by (insert k (f (lookup k m) w) m) other

  pub merge_by-IsSorted : (m : Map K V) (other : Map K W) → IsSorted m → IsSorted (merge_by m other)
  unfolding merge_by
  merge_by-IsSorted m [] s = s
  merge_by-IsSorted m ((k, w) ∷ other) s =
      merge_by-IsSorted (insert k (f (lookup k m) w) m) other
        (insert-IsSorted k (f (lookup k m) w) m s)

  pub lookup-merge_by :
      (j : K) (m : Map K V) (other : Map K W)
      → IsSorted other
      → lookup j (merge_by m other) ≡ merged f (lookup j m) (lookup j other)
  unfolding merge_by lookup
  lookup-merge_by j m [] s = refl
  lookup-merge_by j m ((k, w) ∷ other) s = ground (
    arith,
    lookup-merge_by j (insert k (f (lookup k m) w) m) other s.1,
    lookup-insert j k (f (lookup k m) w) m,
    o.eq_of_cmp j k,
    lookup-After k other s.0,
  )
