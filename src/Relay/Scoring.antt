-- ===== src/Relay/Scoring.antt =====
-- crates/arxia-relay/src/scoring.rs: the score of a relay, without the success rates, which are
-- floating-point numbers.
mod Reference
mod Counting
mod Credits
mod Rolling
mod Slashing
mod Tests
use arxia.Prelude.{
  ℕ, zero, suc, ◌+◌, ◌*◌, ◌-◌, Bool, true, false, not, ◌&&◌, ◌||◌, Option, none, some, List, [],
  ◌∷◌, ◌++◌, length, leb, ltb, ◌==◌, if◌then◌else◌,
}
use arxia.Prelude.Ord.{Str, eqb, str_ord}
use arxia.Prelude.Map.{Map, Set, lookup, insert, contains_key}
use arxia.Prelude.Words.{Bytes, wrap_add, saturating_add}
use arxia.Prelude.Int.{ℤ, pos, negsuc, ◌+ℤ◌, ◌-ℤ◌, is_negative, wrap_i64, saturate_i64}
use arxia.Prelude.Result.{Result, ok, err, panic, ◌>>=◌, ◌>>◌, ok_or, ensure}
use arxia.Crypto.{Primitives}
use arxia.Relay.Signed.{
  RelayReceipt, RelayReceiptError, SlashingProof, SlashingError, verify_receipt, verify_proof,
  decode_hex_32, wrong_relay_id, invalid_message_hash, duplicate_receipt, negative_penalty,
  target_mismatch,
}

abbrev relay_id_len : ℕ
relay_id_len = 64

pub data RelayIdError : Type 0 where
  invalid_length : ℕ → RelayIdError
  invalid_hex : ℕ → ℕ → RelayIdError

-- A digit of a hexadecimal number, in either case.
abbrev is_hex : ℕ → Bool
is_hex b = (leb 48 b && leb b 57) || ((leb 97 b && leb b 102) || (leb 65 b && leb b 70))

-- The loop of `validate_relay_id` from offset `i` on.
unfoldable check_hex : ℕ → Str → Result RelayIdError (Unit {0})
check_hex i [] = ok tt
check_hex i (b ∷ bytes) =
    let rest = check_hex (i + 1) bytes in if is_hex b then rest else err (invalid_hex i b)

unfoldable validate_relay_id : Str → Result RelayIdError (Unit {0})
validate_relay_id relay_id = do
  ensure (length relay_id == relay_id_len) (invalid_length (length relay_id))
  check_hex 0 relay_id

pub record RelayScore : Type 0 where
  pub relay_id : Str
  pub score : ℤ
  pub messages_relayed : ℕ
  pub messages_failed : ℕ
  pub credited_messages : Set Bytes
  pub rolling_events : List (ℕ × ℤ)
  per_target_counts : Map Bytes (ℕ × ℕ)

-- `ROLLING_WINDOW_MS`, 30 days
abbrev pub rolling_window_ms : ℕ
rolling_window_ms = 30 * 86_400_000

abbrev success_delta : ℤ
success_delta = pos 1

-- -5
abbrev failure_delta : ℤ
failure_delta = negsuc 4

abbrev rolling_baseline : ℤ
rolling_baseline = pos 100

pub new : Str → RelayScore
new relay_id = record {
  relay_id = relay_id;
  score = pos 100;
  messages_relayed = 0;
  messages_failed = 0;
  credited_messages = [];
  rolling_events = [];
  per_target_counts = [];
}

unfoldable try_new : Str → Result RelayIdError RelayScore
try_new relay_id = do validate_relay_id relay_id; ok (new relay_id)

-- The end of `record_success`.
pub credit : Bytes → RelayScore → RelayScore
credit msg_hash_bytes s = record s {
  credited_messages = insert msg_hash_bytes tt s.credited_messages;
  messages_relayed = wrap_add s.messages_relayed 1;
  score = wrap_i64 (s.score +ℤ pos 1);
}

pub record_failure : RelayScore → RelayScore
record_failure s = record s {
  messages_failed = wrap_add s.messages_failed 1;
  score = wrap_i64 (s.score -ℤ pos 5);
}

abbrev cutoff : ℕ → ℕ
cutoff now_ms = now_ms - rolling_window_ms

-- The `while` loop of `prune_rolling`.
pub drop_before : ℕ → List (ℕ × ℤ) → List (ℕ × ℤ)
drop_before cut [] = []
drop_before cut ((t, d) ∷ events) =
    let rest = drop_before cut events in if ltb t cut then rest else (t, d) ∷ events

pub prune_rolling : RelayScore → ℕ → RelayScore
prune_rolling s now_ms = record s { rolling_events = drop_before (cutoff now_ms) s.rolling_events }

-- The sum of the deltas that are not before the cut, from `t` on.
pub sum_since : ℕ → ℤ → List (ℕ × ℤ) → ℤ
sum_since cut t [] = t
sum_since cut t ((at, d) ∷ events) =
    sum_since cut (if leb cut at then wrap_i64 (t +ℤ d) else t) events

pub rolling_score : RelayScore → ℕ → ℤ
rolling_score s now_ms =
    saturate_i64 (rolling_baseline +ℤ sum_since (cutoff now_ms) (pos 0) s.rolling_events)

-- `rolling_events.push_back` and `prune_rolling`
pub note_event : ℕ → ℤ → RelayScore → RelayScore
note_event now_ms delta s =
    prune_rolling (record s { rolling_events = s.rolling_events ++ ((now_ms, delta) ∷ []) }) now_ms

pub record_failure_at : RelayScore → ℕ → RelayScore
record_failure_at s now_ms = note_event now_ms failure_delta (record_failure s)

abbrev counts_of : Bytes → Map Bytes (ℕ × ℕ) → ℕ × ℕ
counts_of target m = elim (lookup target m) [ none ↦ (0, 0) | some n ↦ n ]

pub count_success : Bytes → RelayScore → RelayScore
count_success target s =
    let n = counts_of target s.per_target_counts in
    record s { per_target_counts = insert target (saturating_add n.0 1, n.1) s.per_target_counts }

pub record_failure_for_target : RelayScore → Bytes → RelayScore
record_failure_for_target s target =
    let s' = record_failure s in
    let n = counts_of target s'.per_target_counts in
    record s' { per_target_counts = insert target (n.0, saturating_add n.1 1) s'.per_target_counts }

-- `score >= threshold`
unfoldable is_trusted_with_threshold : RelayScore → ℤ → Bool
is_trusted_with_threshold s threshold = not (is_negative (s.score -ℤ threshold))

unfoldable is_trusted : RelayScore → Bool
is_trusted s = is_trusted_with_threshold s (pos 1)

module _ (c : Primitives) where
  -- The gates of `record_success`: the bytes of the hash that is to be credited.
  pub success_checks : RelayScore → RelayReceipt → Result RelayReceiptError Bytes
  success_checks s receipt = do
    ensure (eqb receipt.relay_id s.relay_id) wrong_relay_id
    verify_receipt c receipt
    msg_hash_bytes ← decode_hex_32 c receipt.message_hash invalid_message_hash
    if contains_key msg_hash_bytes s.credited_messages
        then err duplicate_receipt
        else ok msg_hash_bytes

  -- A method that goes on with `after` where `record_success` succeeds.
  pub success_then :
      (RelayScore → RelayScore)
      → RelayScore
      → Result RelayReceiptError Bytes
      → Result RelayReceiptError (Unit {0}) × RelayScore
  success_then after s (ok msg_hash_bytes) = (ok tt, after (credit msg_hash_bytes s))
  success_then after s (err e) = (err e, s)
  success_then after s panic = (panic, s)

  pub record_success : RelayScore → RelayReceipt → Result RelayReceiptError (Unit {0}) × RelayScore
  record_success s receipt = success_then (λ s. s) s (success_checks s receipt)

  pub record_success_at :
      RelayScore → RelayReceipt → ℕ → Result RelayReceiptError (Unit {0}) × RelayScore
  record_success_at s receipt now_ms =
      success_then (note_event now_ms success_delta) s (success_checks s receipt)

  pub record_success_for_target :
      RelayScore → RelayReceipt → Bytes → Result RelayReceiptError (Unit {0}) × RelayScore
  record_success_for_target s receipt target =
      success_then (count_success target) s (success_checks s receipt)

  pub slash_checks : RelayScore → ℤ → SlashingProof → Result SlashingError (Unit {0})
  slash_checks s penalty proof = do
    ensure (not (is_negative penalty)) negative_penalty
    ensure (eqb proof.target_relay_id s.relay_id) target_mismatch
    verify_proof c proof

  pub slash : RelayScore → ℤ → SlashingProof → Result SlashingError (Unit {0}) × RelayScore
  slash s penalty proof = elim (slash_checks s penalty proof) [
    | ok _ ↦ (ok tt, record s { score = saturate_i64 (s.score -ℤ penalty) })
    | err e ↦ (err e, s)
    | panic ↦ (panic, s)
  ]
