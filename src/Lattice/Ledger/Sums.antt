-- ===== src/Lattice/Ledger/Sums.antt =====
-- A number that is summed over the chains of a ledger.
use arxia.Prelude.{ℕ, ◌+◌, ◌≡◌, Option, none, some, List, [], ◌∷◌, ◌++◌, arith}
use arxia.Prelude.Ord.{Str, str_ord}
use arxia.Prelude.Map.{Map, lookup, insert, IsSorted}
use arxia.Prelude.Map.Laws.{After-trans, lookup-After}
use arxia.Lattice.Block.{Block}

module _ (f : Block → ℕ) where
  abbrev sum_chain : List Block → ℕ
  sum_chain [] = 0
  sum_chain (b ∷ bs) = f b + sum_chain bs

  abbrev pub sum_chains : Map Str (List Block) → ℕ
  sum_chains [] = 0
  sum_chains ((k, bs) ∷ m) = sum_chain bs + sum_chains m

  abbrev sum_found : Option (List Block) → ℕ
  sum_found none = 0
  sum_found (some bs) = sum_chain bs

  pub sum_chain-append :
      (bs : List Block) (b : Block) → sum_chain (bs ++ (b ∷ [])) ≡ sum_chain bs + f b
  sum_chain-append [] b = omega arith
  sum_chain-append (c ∷ bs) b = omega (arith, sum_chain-append bs b)

  -- Replacing the chain of a key.
  pub sum_chains-insert :
      (k : Str) (bs : List Block) (m : Map Str (List Block))
      → IsSorted m
      → sum_chains (insert k bs m) + sum_found (lookup k m) ≡ sum_chains m + sum_chain bs
  unfolding insert lookup
  sum_chains-insert k bs [] s = omega arith
  sum_chains-insert k bs ((j, cs) ∷ m) s =
      ground (arith, sum_chains-insert k bs m, After-trans k j m, lookup-After k m)
