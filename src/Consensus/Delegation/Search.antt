-- ===== src/Consensus/Delegation/Search.antt =====
-- The depth-first search of `check_no_path_within_depth` ends, and where it finds nothing there is no
-- walk, of any length.
use arxia.Prelude.{
  ℕ, zero, suc, ◌+◌, ◌≤◌, ◌≡◌, ◌≢◌, ◌||◌, refl, Bool, true, false, List, [], ◌∷◌, length,
  if◌then◌else◌, arith, Bool-cases, inl, inr,
}
use arxia.Prelude.Ord.{Str, eqb, eqb_iff, eqb_refl, str_ord}
use arxia.Prelude.Elem.{elem}
use arxia.Prelude.Map.{Map, Set, lookup, insert, contains_key}
use arxia.Prelude.Map.Laws.{lookup-insert}
use arxia.Prelude.Result.{ok, panic}
use arxia.Consensus.Delegation.{
  Iteration, neighbors, search_fuel, push_all, search, check_no_path_within_depth,
}

-- What a `HashSet` documents of its iteration: it yields the elements, each once.
pub record IsIteration (iter : Iteration) : Type 0 where
  pub elem_iter : (x : Str) (s : Set Str) → elem x (iter s) ≡ contains_key x s
  pub length-iter : (s : Set Str) → length (iter s) ≡ length s

abbrev pub has_edge : Map Str (Set Str) → Str → Str → Bool
has_edge adjacency x y = contains_key y (neighbors adjacency x)

-- The walks along the edges, of any length.
pub data Leads (adjacency : Map Str (Set Str)) : Str → Str → Type 0 where
  here : {x : Str} → Leads adjacency x x
  step :
      {x z : Str} (y : Str)
      → has_edge adjacency x y ≡ true
      → Leads adjacency y z
      → Leads adjacency x z

abbrev on_stack : Str → List (Str × ℕ) → Bool
on_stack x [] = false
on_stack x ((y, d) ∷ stack) = eqb x y || on_stack x stack

on_stack-push_all :
    (x : Str) (d : ℕ) (ns : List Str) (stack : List (Str × ℕ))
    → on_stack x (push_all d ns stack) ≡ (elem x ns || on_stack x stack)
unfolding push_all
on_stack-push_all x d [] stack = refl
on_stack-push_all x d (n ∷ ns) stack = ground (arith, on_stack-push_all x d ns ((n, d) ∷ stack))

length-push_all :
    (d : ℕ) (ns : List Str) (stack : List (Str × ℕ))
    → length (push_all d ns stack) ≡ length ns + length stack
unfolding push_all
length-push_all d [] stack = omega arith
length-push_all d (n ∷ ns) stack = omega (arith, length-push_all d ns ((n, d) ∷ stack))

-- The entries of the sets whose owner has not been visited.
unvisited : Set Str → Map Str (Set Str) → ℕ
unvisited visited [] = 0
unvisited visited ((k, s) ∷ adjacency) =
    (if contains_key k visited then 0 else length s) + unvisited visited adjacency

unvisited_le :
    (visited : Set Str) (adjacency : Map Str (Set Str))
    → unvisited visited adjacency + 1 ≤ search_fuel adjacency
unfolding unvisited search_fuel
unvisited_le visited [] = omega arith
unvisited_le visited ((k, s) ∷ adjacency) = ground (arith, unvisited_le visited adjacency)

unvisited-insert_le :
    (node : Str) (visited : Set Str) (adjacency : Map Str (Set Str))
    → unvisited (insert node tt visited) adjacency ≤ unvisited visited adjacency
unfolding unvisited
unvisited-insert_le node visited [] = omega arith
unvisited-insert_le node visited ((k, s) ∷ adjacency) =
    ground (arith, unvisited-insert_le node visited adjacency, lookup-insert k node tt visited)

unvisited-insert :
    (node : Str) (visited : Set Str) (adjacency : Map Str (Set Str))
    → contains_key node visited ≡ false
    → unvisited (insert node tt visited) adjacency + length (neighbors adjacency node)
      ≤ unvisited visited adjacency
unfolding unvisited lookup
unvisited-insert node visited [] h = omega arith
unvisited-insert node visited ((k, s) ∷ adjacency) h = ground (
  arith,
  unvisited-insert node visited adjacency,
  unvisited-insert_le node visited adjacency,
  lookup-insert k node tt visited,
  eqb_iff k node,
  eqb_iff node k,
)

module _ (iter : Iteration) (laws : IsIteration iter) (adjacency : Map Str (Set Str))
    (start target : Str) (max_depth : ℕ) where
  search_returns :
      (fuel : ℕ) (visited : Set Str) (stack : List (Str × ℕ))
      → unvisited visited adjacency + length stack ≤ fuel
      → search iter adjacency start target max_depth fuel visited stack ≢ panic
  unfolding search
  search_returns fuel visited [] h = cc
  search_returns zero visited (entry ∷ stack) h = absurd (omega arith)
  search_returns (suc fuel) visited ((node, depth) ∷ stack) h = ground (
    arith,
    search_returns fuel visited stack,
    search_returns fuel (insert node tt visited)
        (push_all (depth + 1) (iter (neighbors adjacency node)) stack),
    length-push_all (depth + 1) (iter (neighbors adjacency node)) stack,
    laws.length-iter (neighbors adjacency node),
    unvisited-insert node visited adjacency,
  )

  -- What the loop keeps: no visited node is the target, and the edges of visited nodes lead to nodes
  -- that are visited or wait.
  record IsClosed (visited : Set Str) (stack : List (Str × ℕ)) : Type 0 where
    avoids : contains_key target visited ≡ false
    closed :
        (x y : Str)
        → contains_key x visited ≡ true
        → has_edge adjacency x y ≡ true
        → (contains_key y visited || on_stack y stack) ≡ true

  closed_walk :
      (visited : Set Str) (x : Str)
      → IsClosed visited []
      → Leads adjacency x target
      → contains_key x visited ≡ true
      → ⊥
  closed_walk visited x c here m = cc (c.avoids)
  closed_walk visited x c (step y e w) m =
      closed_walk visited y c w (ground (arith, c.closed x y m e))

  -- A node that is popped again is dropped.
  IsClosed-skip :
      (visited : Set Str) (node : Str) (depth : ℕ) (stack : List (Str × ℕ))
      → contains_key node visited ≡ true
      → IsClosed visited ((node, depth) ∷ stack)
      → IsClosed visited stack
  IsClosed-skip visited node depth stack m c = record {
    avoids = c.avoids;
    closed = λ x y h e. ground (arith, c.closed x y h e, eqb_iff y node);
  }

  -- A new node is marked, and its neighbours wait.
  IsClosed-expand :
      (visited : Set Str) (node : Str) (depth : ℕ) (stack : List (Str × ℕ))
      → eqb node target ≡ false
      → IsClosed visited ((node, depth) ∷ stack)
      → IsClosed
          (insert node tt visited)
          (push_all (depth + 1) (iter (neighbors adjacency node)) stack)
  IsClosed-expand visited node depth stack m c = record {
    avoids = ground (
      arith,
      c.avoids,
      lookup-insert target node tt visited,
      eqb_iff node target,
      eqb_iff target node,
    );
    closed = λ x y h e. ground (
      arith,
      c.closed x y,
      lookup-insert x node tt visited,
      lookup-insert y node tt visited,
      eqb_iff x node,
      on_stack-push_all y (depth + 1) (iter (neighbors adjacency node)) stack,
      laws.elem_iter y (neighbors adjacency node),
    );
  }

  search_sound :
      (fuel : ℕ) (visited : Set Str) (stack : List (Str × ℕ)) (x : Str)
      → IsClosed visited stack
      → search iter adjacency start target max_depth fuel visited stack ≡ ok tt
      → (contains_key x visited || on_stack x stack) ≡ true
      → Leads adjacency x target
      → ⊥
  unfolding search
  search_sound fuel visited [] x c r m w = closed_walk visited x c w (ground (arith, m))
  search_sound zero visited (entry ∷ stack) x c r m w = cc
  search_sound (suc fuel) visited ((node, depth) ∷ stack) x c r m w =
      let skip = IsClosed-skip visited node depth stack in
      let expand = IsClosed-expand visited node depth stack in
      elim (Bool-cases (eqb node target)) [
        | inl hit ↦ cc (rw hit at r)
        | inr miss ↦ ground (
          arith,
          search_sound fuel visited stack x,
          search_sound fuel (insert node tt visited)
              (push_all (depth + 1) (iter (neighbors adjacency node)) stack) x,
          skip,
          expand,
          eqb_iff x node,
          lookup-insert x node tt visited,
          on_stack-push_all x (depth + 1) (iter (neighbors adjacency node)) stack,
        )
      ]

  -- The search ends: its fuel, the entries of all sets and one, is enough.
  pub check-ne-panic : check_no_path_within_depth iter adjacency start target max_depth ≢ panic
  unfolding check_no_path_within_depth
  check-ne-panic =
      search_returns (search_fuel adjacency) [] ((start, 0) ∷ [])
        (omega (arith, unvisited_le [] adjacency))

  nothing_visited : IsClosed [] ((start, 0) ∷ [])
  unfolding lookup
  nothing_visited = record { avoids = refl; closed = λ x y h e. cc }

  -- Where the search finds nothing, no walk of any length leads from the start to the target.
  pub check_sound :
      check_no_path_within_depth iter adjacency start target max_depth ≡ ok tt
      → Leads adjacency start target
      → ⊥
  unfolding check_no_path_within_depth
  check_sound r w =
      search_sound (search_fuel adjacency) [] ((start, 0) ∷ []) start nothing_visited r
        (ground (arith, eqb_refl start)) w
