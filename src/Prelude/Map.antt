-- ===== src/Prelude/Map.antt =====
-- `BTreeMap`, `HashMap` and `HashSet` as association lists in ascending order of their keys.
-- Iteration over a `BTreeMap` is a walk along the list; no order is read off a `HashMap`.
pub mod Laws
pub mod Ext
pub mod Merge
pub mod Sums
pub mod Size
use Prim.Native.Nat.Ordering.{lt, eq, gt}
use mathlib.Core.Path.{◌≡◌}
use mathlib.Core.Bool.{Bool, true, false, ◌||◌}
use mathlib.Core.Option.{Option, none, some}
use mathlib.Core.List.{List, [], ◌∷◌}
use arxia.Prelude.Tests.{if◌then◌else◌}
use arxia.Prelude.Ord.{Ord, eqb}

abbrev pub Map {ℓ κ} : Type ℓ → Type κ → Type (ℓ ⊔ κ)
Map K V = List (K × V)

module _ {ℓ κ} {K : Type ℓ} {V : Type κ} ⦃o : Ord K⦄ where
  -- `get`
  unfoldable pub lookup : K → Map K V → Option V
  lookup k [] = none
  lookup k ((j, v) ∷ m) = if eqb k j then some v else lookup k m

  -- `insert`: replaces the value of a key that is there.
  unfoldable pub insert : K → V → Map K V → Map K V
  insert k v [] = (k, v) ∷ []
  insert k v ((j, w) ∷ m) = elim (o.cmp k j) [
    | lt ↦ (k, v) ∷ (j, w) ∷ m
    | eq ↦ (k, v) ∷ m
    | gt ↦ (j, w) ∷ insert k v m
  ]

  unfoldable pub remove : K → Map K V → Map K V
  remove k [] = []
  remove k ((j, w) ∷ m) = elim (eqb k j) [ true ↦ m | false ↦ (j, w) ∷ remove k m ]

  abbrev pub contains_key : K → Map K V → Bool
  contains_key k m = elim (lookup k m) [ none ↦ false | some _ ↦ true ]

  -- Every key of the map comes after `k`.
  abbrev pub After : K → Map K V → Type ℓ
  After k [] = Unit {ℓ}
  After k ((j, v) ∷ m) = (o.cmp k j ≡ lt) × After k m

  abbrev pub IsSorted : Map K V → Type ℓ
  IsSorted [] = Unit {ℓ}
  IsSorted ((k, v) ∷ m) = After k m × IsSorted m

-- `HashSet`
abbrev pub Set {ℓ} : Type ℓ → Type ℓ
Set K = Map K (Unit {0})
