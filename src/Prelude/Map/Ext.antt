-- ===== src/Prelude/Map/Ext.antt =====
-- A sorted map is determined by what `lookup` reads.
use Prim.Native.Nat.Ordering.{lt}
use mathlib.Core.Path.{◌≡◌, refl, sym, ◌∙◌}
use mathlib.Core.Option.{none, some}
use mathlib.Core.List.{[], ◌∷◌}
use native.Mathlib.Omega.{arith}
use arxia.Prelude.Ord.{Ord}
use arxia.Prelude.Map.{Map, lookup, After, IsSorted}
use arxia.Prelude.Map.Laws.{lookup-After}

module _ {ℓ κ} {K : Type ℓ} {V : Type κ} ⦃o : Ord K⦄ where
  -- A key that is read back comes after whatever is before the whole map.
  After-lookup : (k j : K) (v : V) (m : Map K V) → After k m → lookup j m ≡ some v → o.cmp k j ≡ lt
  unfolding lookup
  After-lookup k j v [] a e = cc
  After-lookup k j v ((i, w) ∷ m) a e = ground (arith, o.eq_of_cmp j i, After-lookup k j v m)

  heads_eq :
      (j k : K) (v w : V) (m n : Map K V)
      → After j m
      → After k n
      → lookup j ((k, w) ∷ n) ≡ some v
      → lookup k ((j, v) ∷ m) ≡ some w
      → (j ≡ k) × (v ≡ w)
  unfolding lookup
  heads_eq j k v w m n a b p q = ground (
    arith,
    o.eq_of_cmp j k,
    o.eq_of_cmp k j,
    o.cmp_flip j j,
    After-lookup j k w m a,
    After-lookup k j v n b,
    o.cmp_flip j k,
  )

  head_lookup : (k : K) (v : V) (m : Map K V) → lookup k ((k, v) ∷ m) ≡ some v
  unfolding lookup
  head_lookup k v m = ground (arith, o.cmp_flip k k)

  nil_lookup : (k : K) → lookup k (let m : Map K V = [] in m) ≡ none
  unfolding lookup
  nil_lookup k = refl

  tail_lookup :
      (j k : K) (v w : V) (m n : Map K V)
      → j ≡ k
      → After j m
      → After k n
      → ((i : K) → lookup i ((j, v) ∷ m) ≡ lookup i ((k, w) ∷ n))
      → (i : K) → lookup i m ≡ lookup i n
  unfolding lookup
  tail_lookup j k v w m n e a b h i =
      ground (arith, h i, o.eq_of_cmp i j, o.eq_of_cmp i k, lookup-After j m a, lookup-After k n b)

  pub map_ext :
      (m n : Map K V) → IsSorted m → IsSorted n → ((k : K) → lookup k m ≡ lookup k n) → m ≡ n
  map_ext [] [] s t h = refl
  map_ext [] ((k, w) ∷ n) s t h = cc (head_lookup k w n, h k, nil_lookup k)
  map_ext ((j, v) ∷ m) [] s t h = cc (head_lookup j v m, h j, nil_lookup j)
  map_ext ((j, v) ∷ m) ((k, w) ∷ n) s t h =
      let e =
        heads_eq j k v w m n s.0 t.0 (sym (h j) ∙ head_lookup j v m) (h k ∙ head_lookup k w n) in
      cc (e.0, e.1, map_ext m n s.1 t.1 (tail_lookup j k v w m n e.0 s.0 t.0 h))
