-- ===== src/Relay/Scoring/Reference.antt =====
-- The reference for the score of a relay: which receipts and failures of a history count.
use arxia.Prelude.{
  ℕ, ◌+◌, ◌≤◌, List, [], ◌∷◌, length, arith, not, ◌&&◌, none, some, Bool, if◌then◌else◌,
}
use arxia.Prelude.Ord.{Str, str_ord, eqb}
use arxia.Prelude.Words.{Bytes}
use arxia.Prelude.Elem.{elem, IsNodup}
use arxia.Prelude.Result.{is_ok}
use arxia.Relay.Signed.{verify_receipt, RelayReceipt}
use arxia.Crypto.{Primitives}

pub data Call : Type 0 where
  success : RelayReceipt → Call
  success_at : RelayReceipt → ℕ → Call
  success_for_target : RelayReceipt → Bytes → Call
  failure : Call
  failure_at : ℕ → Call
  failure_for_target : Bytes → Call

-- The reference: which receipts count, in a history of calls with the last one first.
module _ (c : Primitives) (id : Str) where
  -- The bytes of the message hash that a receipt names.
  abbrev pub hash_of : RelayReceipt → Bytes
  hash_of r = elim (c.hex_decode r.message_hash) [ none ↦ [] | some b ↦ b ]

  abbrev pub hashes : List RelayReceipt → List Bytes
  hashes [] = []
  hashes (r ∷ rs) = hash_of r ∷ hashes rs

  -- The receipt is of the relay, it verifies, and its message is none of those that counted before.
  abbrev pub is_credible : List RelayReceipt → RelayReceipt → Bool
  is_credible rs r =
      eqb r.relay_id id && (is_ok (verify_receipt c r) && not (elem (hash_of r) (hashes rs)))

  abbrev pub accept : RelayReceipt → List RelayReceipt → List RelayReceipt
  accept r rs = if is_credible rs r then r ∷ rs else rs

  unfoldable pub accepted : List Call → List RelayReceipt
  accepted [] = []
  accepted (success r ∷ calls) = accept r (accepted calls)
  accepted (success_at r now_ms ∷ calls) = accept r (accepted calls)
  accepted (success_for_target r target ∷ calls) = accept r (accepted calls)
  accepted (failure ∷ calls) = accepted calls
  accepted (failure_at now_ms ∷ calls) = accepted calls
  accepted (failure_for_target target ∷ calls) = accepted calls

-- The number of failures in a history.
unfoldable pub failures : List Call → ℕ
failures [] = 0
failures (success r ∷ calls) = failures calls
failures (success_at r now_ms ∷ calls) = failures calls
failures (success_for_target r target ∷ calls) = failures calls
failures (failure ∷ calls) = failures calls + 1
failures (failure_at now_ms ∷ calls) = failures calls + 1
failures (failure_for_target target ∷ calls) = failures calls + 1

module _ (c : Primitives) (id : Str) where
  pub few : (calls : List Call) → length (accepted c id calls) + failures calls ≤ length calls
  unfolding accepted failures
  few [] = omega arith
  few (success r ∷ calls) = ground (arith, few calls)
  few (success_at r now_ms ∷ calls) = ground (arith, few calls)
  few (success_for_target r target ∷ calls) = ground (arith, few calls)
  few (failure ∷ calls) = omega (arith, few calls)
  few (failure_at now_ms ∷ calls) = omega (arith, few calls)
  few (failure_for_target target ∷ calls) = omega (arith, few calls)

  pub accepted-IsNodup : (calls : List Call) → IsNodup (hashes c id (accepted c id calls))
  unfolding accepted
  accepted-IsNodup [] = tt
  accepted-IsNodup (success r ∷ calls) = ground (arith, accepted-IsNodup calls)
  accepted-IsNodup (success_at r now_ms ∷ calls) = ground (arith, accepted-IsNodup calls)
  accepted-IsNodup (success_for_target r target ∷ calls) = ground (arith, accepted-IsNodup calls)
  accepted-IsNodup (failure ∷ calls) = accepted-IsNodup calls
  accepted-IsNodup (failure_at now_ms ∷ calls) = accepted-IsNodup calls
  accepted-IsNodup (failure_for_target target ∷ calls) = accepted-IsNodup calls
