-- ===== src/Gossip/Message/Relaying.antt =====
-- How often a message is sent on.
use arxia.Prelude.{
  ℕ, zero, suc, ◌≤◌, ◌<◌, ◌≡◌, true, false, Option, none, some, arith, ltb, ◌-◌, if◌then◌else◌,
  refl,
}
use arxia.Prelude.Words.{Bytes}
use arxia.Prelude.Result.{ok}
use arxia.Gossip.Message.{
  GossipMessage, block_announce, nonce_sync_request, nonce_sync_response, ping, validate,
  decrement_hops_for_relay,
}

-- The message after `k` nodes, one after the other, have sent it on; `none` where one does not.
unfoldable pub relayed : ℕ → GossipMessage → Option GossipMessage
relayed zero m = some m
relayed (suc k) m = elim (decrement_hops_for_relay m).0 [
  | true ↦ relayed k (decrement_hops_for_relay m).1
  | false ↦ none
]

relayed_announce :
    (k : ℕ) (d : Bytes) (h : ℕ)
    → relayed (suc k) (block_announce d h)
      ≡ (if ltb (suc k) h then some (block_announce d (h - suc k)) else none)
unfolding relayed decrement_hops_for_relay
relayed_announce zero d h = ground arith
relayed_announce (suc k) d h = ground (arith, relayed_announce k d (h - 1))

relayed_other :
    (k : ℕ) (m : GossipMessage) → (decrement_hops_for_relay m).0 ≡ false → relayed (suc k) m ≡ none
unfolding relayed
relayed_other k m h = ground (arith, h)

-- A message that passes `validate` is sent on by at most 15 nodes one after the other, and only if it
-- announces a block. The block stays as it is, each node takes one from the hops, and the message
-- still passes `validate` at every node.
pub relayed_bound :
    (k : ℕ) (m m' : GossipMessage)
    → validate m ≡ ok tt
    → relayed (suc k) m ≡ some m'
    → (suc k ≤ 15)
      × (validate m' ≡ ok tt)
      × ((d : Bytes) × (h : ℕ) × (m ≡ block_announce d h)
          × (m' ≡ block_announce d (h - suc k))
          × (suc k < h))
unfolding validate decrement_hops_for_relay
relayed_bound k (block_announce d h) m' v e =
    let r = relayed_announce k d h in
    let short : suc k < h = ground (arith, r, e) in
    let left : m' ≡ block_announce d (h - suc k) = ground (arith, r, e) in
    (ground (arith, v, short), rw left (ground (arith, v, short)), (d, h, refl, left, short))
relayed_bound k (nonce_sync_request f) m' v e =
    absurd (ground (arith, e, relayed_other k (nonce_sync_request f)))
relayed_bound k (nonce_sync_response es) m' v e =
    absurd (ground (arith, e, relayed_other k (nonce_sync_response es)))
relayed_bound k (ping i t) m' v e = absurd (ground (arith, e, relayed_other k (ping i t)))
