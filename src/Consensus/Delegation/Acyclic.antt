-- ===== src/Consensus/Delegation/Acyclic.antt =====
-- A new edge closes no cycle if no walk leads back.
use arxia.Prelude.{◌≡◌, ◌||◌, ◌&&◌, true, arith, ◌⊎◌, inl, inr, Bool-cases}
use arxia.Prelude.Ord.{Str, eqb, eqb_iff, str_ord}
use arxia.Prelude.Map.{Map, Set}
use arxia.Consensus.Delegation.Search.{has_edge, Leads, here, step}

abbrev pub IsAcyclic : Map Str (Set Str) → Type 0
IsAcyclic adjacency = (x y : Str) → has_edge adjacency x y ≡ true → Leads adjacency y x → ⊥

pub join : {m : Map Str (Set Str)} {x y z : Str} → Leads m x y → Leads m y z → Leads m x z
join here q = q
join (step u e p) q = step u e (join p q)

-- With fewer edges there are fewer walks.
Leads_mono :
    (m n : Map Str (Set Str)) {x z : Str}
    → ((x y : Str) → has_edge m x y ≡ true → has_edge n x y ≡ true)
    → Leads m x z
    → Leads n x z
Leads_mono m n h here = here
Leads_mono m n h (step {x} y e p) = step y (h x y e) (Leads_mono m n h p)

pub IsAcyclic-mono :
    (m n : Map Str (Set Str))
    → ((x y : Str) → has_edge m x y ≡ true → has_edge n x y ≡ true)
    → IsAcyclic n
    → IsAcyclic m
IsAcyclic-mono m n h a x y e p = a x y (h x y e) (Leads_mono m n h p)

-- `n` has the edge from `d` to `r`, and those of `m`.
module _ (m n : Map Str (Set Str)) (d r : Str)
    (edges : (x y : Str) → has_edge n x y ≡ (has_edge m x y || (eqb x d && eqb y r))) where
  edge_cases : (x y : Str) → has_edge n x y ≡ true → (has_edge m x y ≡ true) ⊎ ((x ≡ d) × (y ≡ r))
  edge_cases x y e = elim (Bool-cases (has_edge m x y)) [
    | inl old ↦ inl old
    | inr new ↦ inr (
      ground (arith, edges x y, eqb_iff x d, eqb_iff y r),
      ground (arith, edges x y, eqb_iff x d, eqb_iff y r),
    )
  ]

  -- A walk avoids the new edge, or is cut at its first and at its last use of it.
  walk_cases : {x z : Str} → Leads n x z → Leads m x z ⊎ (Leads m x d × Leads m r z)
  walk_cases here = inl here
  walk_cases (step {x} {z} y e p) = elim (edge_cases x y e) [
    | inl old ↦ elim (walk_cases p) [
      | inl q ↦ inl (step y old q)
      | inr (q, q') ↦ inr (step y old q, q')
    ]
    | inr (a, b) ↦ elim (walk_cases p) [
      | inl q ↦ inr (rw a here, rw (← b) q)
      | inr (q, q') ↦ inr (rw a here, q')
    ]
  ]

  pub IsAcyclic-connect : IsAcyclic m → (Leads m r d → ⊥) → IsAcyclic n
  IsAcyclic-connect a back x y e p = elim (edge_cases x y e) [
    | inl old ↦ elim (walk_cases p) [
      | inl q ↦ a x y old q
      | inr (q, q') ↦ back (join q' (step y old q))
    ]
    | inr (xd, yr) ↦ elim (walk_cases p) [
      | inl q ↦ back (rw (← xd, ← yr) q)
      | inr (q, q') ↦ back (rw (← yr) q)
    ]
  ]
