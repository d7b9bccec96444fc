-- ===== src/Consensus/Delegation.antt =====
-- crates/arxia-consensus/src/delegation.rs: the delegation graph. A `HashSet` of neighbours is walked
-- in an order that the argument `iter` gives.
mod Search
mod Acyclic
mod Edges
mod Invariant
mod Calls
mod Totals
mod Tests
use arxia.Prelude.{
  ℕ, zero, suc, ◌+◌, Bool, true, false, Option, none, some, List, [], ◌∷◌, ◌++◌, length, leb,
  if◌then◌else◌, ◌≡◌,
}
use arxia.Prelude.Ord.{Str, eqb, str_ord, pair_ord}
use arxia.Prelude.Map.{Map, Set, lookup, insert, remove, contains_key}
use arxia.Prelude.Map.Sums.{or_zero}
use arxia.Prelude.Words.{Bytes, saturating_add}
use arxia.Prelude.Result.{Result, ok, err, panic, ◌>>=◌, ◌>>◌, map_err}
use arxia.Crypto.{Primitives, verify}
use arxia.Consensus.Vote.{to_le_bytes}

-- `MAX_DELEGATION_DEPTH`
abbrev max_delegation_depth : ℕ
max_delegation_depth = 8

-- `DELEGATION_REVOCATION_DOMAIN`, "arxia-delegation-revocation-v1"
abbrev delegation_revocation_domain : Bytes
delegation_revocation_domain =
    97 ∷ 114 ∷ 120 ∷ 105 ∷ 97 ∷ 45 ∷ 100 ∷ 101 ∷ 108 ∷ 101 ∷ 103 ∷ 97 ∷ 116 ∷ 105 ∷ 111 ∷ 110 ∷ 45
    ∷ 114 ∷ 101 ∷ 118 ∷ 111 ∷ 99 ∷ 97 ∷ 116 ∷ 105 ∷ 111 ∷ 110 ∷ 45 ∷ 118 ∷ 49 ∷ []

pub data DelegationError : Type 0 where
  self_delegation : DelegationError
  cycle_detected : Str → Str → DelegationError
  depth_exceeded : ℕ → ℕ → DelegationError
  invalid_revocation_signature : DelegationError
  edge_not_found : Str → Str → DelegationError

pub record Delegation : Type 0 where
  pub delegator : Str
  pub representative : Str
  pub amount : ℕ
  pub created_at : ℕ

pub record Revocation : Type 0 where
  pub delegator_pubkey : Bytes
  pub delegator : Str
  pub representative : Str
  pub nonce : ℕ
  pub signature : Bytes

-- `Revocation::canonical_bytes`
pub canonical_bytes : Bytes → Str → Str → ℕ → Bytes
canonical_bytes delegator_pubkey delegator representative nonce =
    delegation_revocation_domain
    ++ (delegator_pubkey ++ (delegator ++ (representative ++ to_le_bytes nonce)))

-- `Revocation::verify`
pub verify_revocation : Primitives → Revocation → Result DelegationError (Unit {0})
verify_revocation c rev =
    map_err (λ _. invalid_revocation_signature)
      (verify c rev.delegator_pubkey
        (canonical_bytes rev.delegator_pubkey rev.delegator rev.representative rev.nonce)
        rev.signature)

pub record DelegationGraph : Type 0 where
  pub edges : Map (Str × Str) Delegation
  pub adjacency : Map Str (Set Str)

-- `DelegationGraph::new`
abbrev pub new : DelegationGraph
new = record { edges = []; adjacency = [] }

-- `get(node)`, where an absent entry has no neighbours.
abbrev pub neighbors : Map Str (Set Str) → Str → Set Str
neighbors adjacency node = elim (lookup node adjacency) [ none ↦ [] | some s ↦ s ]

-- The entries of all sets of neighbours, and one.
pub search_fuel : Map Str (Set Str) → ℕ
search_fuel [] = 1
search_fuel ((k, s) ∷ adjacency) = length s + search_fuel adjacency

-- `for n in neighbors { stack.push((n, depth)) }`; the head of the list is the top of the stack.
pub push_all : ℕ → List Str → List (Str × ℕ) → List (Str × ℕ)
push_all depth [] stack = stack
push_all depth (n ∷ ns) stack = push_all depth ns ((n, depth) ∷ stack)

-- `self.adjacency.entry(from).or_default().insert(to)`
pub connect : Str → Str → Map Str (Set Str) → Map Str (Set Str)
connect from to adjacency = insert from (insert to tt (neighbors adjacency from)) adjacency

-- The end of `delegate`, after the search.
pub add_edge :
    DelegationGraph
    → Delegation
    → Result DelegationError (Unit {0})
    → Result DelegationError (Unit {0}) × DelegationGraph
add_edge g d (ok _) = (
  ok tt,
  record {
    edges = insert (d.delegator, d.representative) d g.edges;
    adjacency = connect d.delegator d.representative g.adjacency;
  },
)
add_edge g d (err e) = (err e, g)
add_edge g d panic = (panic, g)

-- The order in which a `HashSet` yields its elements.
abbrev pub Iteration : Type 0
Iteration = Set Str → List Str

module _ (iter : Iteration) where
  module _ (adjacency : Map Str (Set Str)) (start target : Str) (max_depth : ℕ) where
    -- The `while` loop. Where the fuel runs out it says `panic`, which is shown not to happen.
    pub search : ℕ → Set Str → List (Str × ℕ) → Result DelegationError (Unit {0})
    search fuel visited [] = ok tt
    search zero visited (entry ∷ stack) = panic
    search (suc fuel) visited ((node, depth) ∷ stack) =
        let skip = search fuel visited stack in
        let next =
          search fuel (insert node tt visited)
            (push_all (depth + 1) (iter (neighbors adjacency node)) stack) in
        if eqb node target
        then err (cycle_detected target start)
        else if leb max_depth depth
        then err (depth_exceeded depth max_depth)
        else if contains_key node visited
        then skip
        else next

    pub check_no_path_within_depth : Result DelegationError (Unit {0})
    check_no_path_within_depth = search (search_fuel adjacency) [] ((start, 0) ∷ [])

  pub delegate : DelegationGraph → Delegation → Result DelegationError (Unit {0}) × DelegationGraph
  delegate g d =
      let key : Str × Str = (d.delegator, d.representative) in
      if eqb d.delegator d.representative
      then (err self_delegation, g)
      else if contains_key key g.edges
      then (ok tt, record g { edges = insert key d g.edges })
      else add_edge g d
          (check_no_path_within_depth g.adjacency d.representative d.delegator max_delegation_depth)

-- `if neighbors.is_empty() { self.adjacency.remove(from) }`
abbrev put_back : Str → Set Str → Map Str (Set Str) → Map Str (Set Str)
put_back from [] adjacency = remove from adjacency
put_back from (x ∷ s) adjacency = insert from (x ∷ s) adjacency

-- The part of `revoke` that changes `adjacency`.
pub disconnect : Str → Str → Map Str (Set Str) → Map Str (Set Str)
disconnect from to adjacency = elim (lookup from adjacency) [
  | none ↦ adjacency
  | some s ↦ put_back from (remove to s) adjacency
]

pub revoke :
    Primitives → DelegationGraph → Revocation → Result DelegationError (Unit {0}) × DelegationGraph
revoke c g rev =
    let key : Str × Str = (rev.delegator, rev.representative) in
    elim (verify_revocation c rev) [
      | ok _ ↦
          if contains_key key g.edges
          then (
            ok tt,
            record {
              edges = remove key g.edges;
              adjacency = disconnect rev.delegator rev.representative g.adjacency;
            },
          )
          else (err (edge_not_found rev.delegator rev.representative), g)
      | err e ↦ (err e, g)
      | panic ↦ (panic, g)
    ]

-- The loop of `total_for_representative`, and of `total_delegated_stake` over a list.
pub sum_for : Str → ℕ → List Delegation → ℕ
sum_for representative t [] = t
sum_for representative t (d ∷ ds) =
    sum_for representative
      (if eqb d.representative representative then saturating_add t d.amount else t) ds

-- `values()`
abbrev pub values : Map (Str × Str) Delegation → List Delegation
values [] = []
values ((k, d) ∷ m) = d ∷ values m

pub total_for_representative : DelegationGraph → Str → ℕ
total_for_representative g representative = sum_for representative 0 (values g.edges)

pub total_delegated_stake : Str → List Delegation → ℕ
total_delegated_stake representative delegations = sum_for representative 0 delegations

-- The totals of a `DelegationSnapshot`.
pub fold_totals : Map Str ℕ → List Delegation → Map Str ℕ
fold_totals totals [] = totals
fold_totals totals (d ∷ ds) =
    fold_totals
      (insert d.representative (saturating_add (or_zero (lookup d.representative totals)) d.amount)
        totals)
      ds

pub snapshot : DelegationGraph → Map Str ℕ
snapshot g = fold_totals [] (values g.edges)

pub total_for : Map Str ℕ → Str → ℕ
total_for totals representative = or_zero (lookup representative totals)
