-- ===== src/Prelude/Map/Size.antt =====
-- The number of entries of a map.
use Prim.Native.Nat.{suc}
use mathlib.Core.Path.{◌≡◌, refl}
use mathlib.Core.Bool.{true}
use mathlib.Core.List.{[], ◌∷◌}
use native.Mathlib.Omega.{arith}
use arxia.Prelude.Tests.{if◌then◌else◌}
use arxia.Prelude.Lists.{length}
use arxia.Prelude.Ord.{Ord}
use arxia.Prelude.Map.{Map, lookup, insert, remove, contains_key, IsSorted}
use arxia.Prelude.Map.Laws.{lookup-After, After-trans}

module _ {ℓ κ} {K : Type ℓ} {V : Type κ} ⦃o : Ord K⦄ where
  pub length-insert :
      (k : K) (v : V) (m : Map K V)
      → IsSorted m
      → length (insert k v m) ≡ (if contains_key k m then length m else suc (length m))
  unfolding insert lookup
  length-insert k v [] s = refl
  length-insert k v ((j, w) ∷ m) s =
      ground (arith, length-insert k v m s.1, lookup-After k m, After-trans k j m)

  pub length-remove :
      (k : K) (m : Map K V) → contains_key k m ≡ true → suc (length (remove k m)) ≡ length m
  unfolding remove lookup
  length-remove k [] h = cc
  length-remove k ((j, w) ∷ m) h = ground (arith, length-remove k m)
