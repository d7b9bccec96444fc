-- ===== src/Clock.antt =====
-- The comparisons of vector clocks, which crates/arxia-lattice/src/chain.rs and
-- crates/arxia-crdt/src/vector_clock.rs write in the same words.
pub mod Causality
mod Tests
use arxia.Prelude.{
  ℕ, Bool, true, false, not, ◌&&◌, Option, none, some, [], ◌∷◌, ltb, ◌==◌, if◌then◌else◌,
}
use arxia.Prelude.Ord.{Str, str_ord, cmp_str}
use arxia.Prelude.Map.{Map, lookup, contains_key}
use Prim.Native.Nat.Ordering.{eq}

-- `get(k).copied().unwrap_or(0)`
abbrev pub count_of : Str → Map Str ℕ → ℕ
count_of k v = elim (lookup k v) [ none ↦ 0 | some n ↦ n ]

-- The first loop: `none` is the early `return false`.
pub first_pass : Map Str ℕ → Map Str ℕ → Bool → Option Bool
first_pass [] other less = some less
first_pass ((k, n) ∷ v) other less =
    let rest = first_pass v other (if ltb n (count_of k other) then true else less) in
    if ltb (count_of k other) n then none else rest

-- The second loop, over the entries of `other`.
pub second_pass : Map Str ℕ → Map Str ℕ → Bool → Bool
second_pass v [] less = less
second_pass v ((k, n) ∷ other) less =
    second_pass v other (if not (contains_key k v) && ltb 0 n then true else less)

pub happened_before : Map Str ℕ → Map Str ℕ → Bool
happened_before v other = elim (first_pass v other false) [
  | none ↦ false
  | some less ↦ second_pass v other less
]

-- `==` of two `BTreeMap`s: the same entries in the same order.
unfoldable maps_eq : Map Str ℕ → Map Str ℕ → Bool
maps_eq [] [] = true
maps_eq [] (_ ∷ _) = false
maps_eq (_ ∷ _) [] = false
maps_eq ((j, m) ∷ v) ((k, n) ∷ w) = elim (cmp_str j k) [
  | eq ↦ (if m == n then maps_eq v w else false)
  | _ ↦ false
]

unfoldable is_concurrent : Map Str ℕ → Map Str ℕ → Bool
is_concurrent v w = not (happened_before v w) && (not (happened_before w v) && not (maps_eq v w))
