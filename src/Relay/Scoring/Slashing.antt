-- ===== src/Relay/Scoring/Slashing.antt =====
-- What a slashing proof allows.
use arxia.Prelude.{ℕ, ◌≡◌, arith}
use arxia.Prelude.Int.{pos, ◌-ℤ◌, saturate_i64}
use arxia.Prelude.Result.{ok}
use arxia.Crypto.{Primitives}
use arxia.Relay.Signed.{SlashingProof}
use arxia.Relay.Scoring.{RelayScore, slash, slash_checks}

module _ (c : Primitives) (s : RelayScore) (proof : SlashingProof) where
  -- A proof that lets a relay be slashed by one penalty lets it be slashed by any other, and then again
  -- by a third: the penalty is no part of what the observer signed, and no proof is used up.
  pub slash_again :
      (penalty other third : ℕ)
      → (slash c s (pos penalty) proof).0 ≡ ok tt
      → ((slash c s (pos other) proof).0 ≡ ok tt)
        × ((slash c (slash c s (pos other) proof).1 (pos third) proof).0 ≡ ok tt)
        × ((slash c (slash c s (pos other) proof).1 (pos third) proof).1.score
            ≡ saturate_i64 (saturate_i64 (s.score -ℤ pos other) -ℤ pos third))
  unfolding slash slash_checks
  slash_again penalty other third e = ground (arith, e)
