-- ===== src/Prelude/Map/Laws.antt =====
-- What `lookup` reads after `insert` and `remove`, and that both keep the order.
use Prim.Native.Nat.Ordering.{lt}
use mathlib.Core.Path.{◌≡◌, refl}
use mathlib.Core.Logic.{◌≢◌}
use mathlib.Core.Option.{none, some}
use mathlib.Core.List.{[], ◌∷◌}
use native.Mathlib.Omega.{arith}
use arxia.Prelude.Tests.{if◌then◌else◌}
use arxia.Prelude.Ord.{Ord, eqb, eqb_refl}
use arxia.Prelude.Map.{Map, lookup, insert, remove, After, IsSorted}

module _ {ℓ κ} {K : Type ℓ} {V : Type κ} ⦃o : Ord K⦄ where
  pub lookup-insert :
      (j k : K) (v : V) (m : Map K V)
      → lookup j (insert k v m) ≡ (if eqb j k then some v else lookup j m)
  unfolding lookup insert
  lookup-insert j k v [] = refl
  lookup-insert j k v ((i, w) ∷ m) = ground (
    arith,
    o.eq_of_cmp j k,
    o.eq_of_cmp j i,
    o.eq_of_cmp k i,
    o.cmp_flip i i,
    lookup-insert j k v m,
  )

  pub lookup-insert_self : (k : K) (v : V) (m : Map K V) → lookup k (insert k v m) ≡ some v
  lookup-insert_self k v m = simp (lookup-insert, eqb_refl)

  pub lookup-remove_ne : (j k : K) (m : Map K V) → j ≢ k → lookup j (remove k m) ≡ lookup j m
  unfolding lookup remove
  lookup-remove_ne j k [] h = refl
  lookup-remove_ne j k ((i, w) ∷ m) h =
      ground (arith, o.eq_of_cmp k i, o.eq_of_cmp j i, lookup-remove_ne j k m)

  pub After-trans : (j k : K) (m : Map K V) → o.cmp j k ≡ lt → After k m → After j m
  After-trans j k [] h a = tt
  After-trans j k ((i, w) ∷ m) h a = (o.cmp_trans j k i h a.0, After-trans j k m h a.1)

  After-insert :
      (j k : K) (v : V) (m : Map K V) → After j m → o.cmp j k ≡ lt → After j (insert k v m)
  unfolding insert
  After-insert j k v [] a h = (h, tt)
  After-insert j k v ((i, w) ∷ m) a h = ground (arith, After-insert j k v m)

  After-remove : (j k : K) (m : Map K V) → After j m → After j (remove k m)
  unfolding remove
  After-remove j k [] a = tt
  After-remove j k ((i, w) ∷ m) a = ground (arith, After-remove j k m)

  pub insert-IsSorted : (k : K) (v : V) (m : Map K V) → IsSorted m → IsSorted (insert k v m)
  unfolding insert
  insert-IsSorted k v [] s = (tt, tt)
  insert-IsSorted k v ((i, w) ∷ m) s = ground (
    arith,
    insert-IsSorted k v m,
    After-insert i k v m,
    o.cmp_flip k i,
    After-trans k i m,
    o.eq_of_cmp k i,
  )

  pub remove-IsSorted : (k : K) (m : Map K V) → IsSorted m → IsSorted (remove k m)
  unfolding remove
  remove-IsSorted k [] s = tt
  remove-IsSorted k ((i, w) ∷ m) s = ground (arith, remove-IsSorted k m, After-remove i k m)

  pub lookup-After : (k : K) (m : Map K V) → After k m → lookup k m ≡ none
  unfolding lookup
  lookup-After k [] a = refl
  lookup-After k ((i, w) ∷ m) a = ground (arith, lookup-After k m)

  pub lookup-remove_self : (k : K) (m : Map K V) → IsSorted m → lookup k (remove k m) ≡ none
  unfolding lookup remove
  lookup-remove_self k [] s = refl
  lookup-remove_self k ((i, w) ∷ m) s =
      ground (arith, o.eq_of_cmp k i, lookup-remove_self k m, lookup-After k m)

  pub remove-nil : (k : K) → remove k (let m : Map K V = [] in m) ≡ []
  unfolding remove
  remove-nil k = refl
