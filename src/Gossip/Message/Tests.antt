-- ===== src/Gossip/Message/Tests.antt =====
-- Messages at which the theorems on them are applied.
use arxia.Prelude.{ℕ, ◌-◌, ◌≤◌, ◌<◌, ◌≡◌, refl, [], ◌∷◌, replicate, arith}
use arxia.Prelude.Words.{Bytes}
use arxia.Prelude.Result.{ok}
use arxia.Gossip.Message.{
  GossipMessage, block_announce, nonce_sync_response, validate, decrement_hops_for_relay,
}
use arxia.Gossip.Message.Encoding.{canonical_bytes-injective}
use arxia.Gossip.Message.Relaying.{relayed, relayed_bound}

abbrev sender : Bytes
sender = replicate 32 7

abbrev response : GossipMessage
response = nonce_sync_response ((replicate 32 1, 5, replicate 32 2) ∷ [])

canonical_bytes-injective_example : (response ≡ response) × (sender ≡ sender)
canonical_bytes-injective_example =
    canonical_bytes-injective response response sender sender
      (omega arith, ((refl, omega arith, refl), tt)) (omega arith, ((refl, omega arith, refl), tt))
      refl refl refl

relayed_bound_example :
    (2 ≤ 15)
    × (validate (block_announce (9 ∷ []) 14) ≡ ok tt)
    × ((d : Bytes) × (h : ℕ) × (block_announce (9 ∷ []) 16 ≡ block_announce d h)
        × (block_announce (9 ∷ []) 14 ≡ block_announce d (h - 2))
        × (2 < h))
unfolding validate relayed decrement_hops_for_relay
relayed_bound_example =
    relayed_bound 1 (block_announce (9 ∷ []) 16) (block_announce (9 ∷ []) 14) refl refl
