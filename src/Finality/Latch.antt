-- ===== src/Finality/Latch.antt =====
-- The latch never lowers the level of a block.
use arxia.Prelude.{◌≤◌, ◌≡◌, List, [], ◌∷◌, arith, sym}
use arxia.Prelude.Ord.{str_ord, eqb_iff}
use arxia.Prelude.Map.{lookup, insert}
use arxia.Prelude.Map.Laws.{lookup-insert, lookup-insert_self}
use arxia.Prelude.Words.{Bytes}
use arxia.Prelude.Result.{Result, bind-ok, ok, err, panic, ◌>>=◌}
use arxia.Crypto.{Primitives}
use arxia.Finality.{
  FinalityError, FinalityLevel, FinalityLatch, Assessment, assess_finality, assess_monotonic,
  max_level, or_pending, rank,
}

abbrev pub level_of : Bytes → FinalityLatch → FinalityLevel
level_of block_hash latch = or_pending (lookup block_hash latch)

ok_pair :
    (a b : FinalityLevel) (v w : FinalityLatch)
    → (let r : Result FinalityError (FinalityLevel × FinalityLatch) = ok (a, v) in r) ≡ ok (b, w)
    → (a ≡ b) × (v ≡ w)
ok_pair a b v w e = (cc, cc)

module _ (c : Primitives) where
  -- The latch after a call; an error leaves it.
  abbrev latch_after :
      FinalityLatch → Result FinalityError (FinalityLevel × FinalityLatch) → FinalityLatch
  latch_after latch (ok (level, next)) = next
  latch_after latch (err e) = latch
  latch_after latch panic = latch

  pub run : List Assessment → FinalityLatch → FinalityLatch
  run [] latch = latch
  run (a ∷ rest) latch = run rest (latch_after latch (assess_monotonic c a latch))

  grows_lem :
      (j k : Bytes) (latch : FinalityLatch) (snapshot : Result FinalityError FinalityLevel)
      → rank (level_of j latch)
        ≤ rank (
            level_of j (
              latch_after latch (
                snapshot >>= λ s. ok (
                  max_level (or_pending (lookup k latch)) s,
                  insert k (max_level (or_pending (lookup k latch)) s) latch,
                ))))
  grows_lem j k latch (ok s) =
      ground
        (arith, lookup-insert j k (max_level (or_pending (lookup k latch)) s) latch, eqb_iff j k)
  grows_lem j k latch (err e) = omega arith
  grows_lem j k latch panic = omega arith

  -- The level that a latch holds for a block never falls, whatever assessments, of whatever blocks
  -- and with whatever errors, are made through it.
  pub run_grows :
      (as' : List Assessment) (latch : FinalityLatch) (block_hash : Bytes)
      → rank (level_of block_hash latch) ≤ rank (level_of block_hash (run as' latch))
  unfolding run assess_monotonic
  run_grows [] latch block_hash = omega arith
  run_grows (a ∷ rest) latch block_hash = omega (
    arith,
    grows_lem block_hash a.block_hash latch
        (assess_finality c a.amount a.block_hash a.confirmations a.sync_result a.votes a.registry),
    run_grows rest (latch_after latch (assess_monotonic c a latch)) block_hash,
  )

  -- A call returns the higher of the level held before and the one that it assesses, and the latch
  -- then holds it; where the assessment is an error the call is that error.
  assess_monotonic_lem :
      (a : Assessment) (latch : FinalityLatch) (level : FinalityLevel) (next : FinalityLatch)
      → assess_monotonic c a latch ≡ ok (level, next)
      → (snapshot : FinalityLevel) × (assess_finality c a.amount a.block_hash a.confirmations
            a.sync_result a.votes a.registry
          ≡ ok snapshot)
        × (level ≡ max_level (level_of a.block_hash latch) snapshot)
        × (level_of a.block_hash next ≡ level)
  unfolding assess_monotonic
  assess_monotonic_lem a latch level next e =
      let r =
        bind-ok
          (assess_finality c a.amount a.block_hash a.confirmations a.sync_result a.votes a.registry)
          _ (level, next) e in
      let top = max_level (level_of a.block_hash latch) r.0 in
      let p = ok_pair top level (insert a.block_hash top latch) next r.2 in
      (r.0, r.1, sym p.0, cc (p.0, p.1, lookup-insert_self a.block_hash top latch))
