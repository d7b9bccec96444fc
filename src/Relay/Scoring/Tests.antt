-- ===== src/Relay/Scoring/Tests.antt =====
-- Relays at which the theorems on them are applied.
use arxia.Prelude.{◌≡◌, refl, [], ◌∷◌, arith}
use arxia.Prelude.{◌+◌, ◌*◌, List, length}
use arxia.Prelude.Int.{diff}
use arxia.Prelude.Elem.{IsNodup}
use arxia.Prelude.Ord.{str_ord}
use arxia.Prelude.Ord.{Str, cmp_str}
use arxia.Prelude.Map.{lookup}
use arxia.Prelude.Words.{Bytes}
use arxia.Prelude.Int.{pos, negsuc, ◌-ℤ◌, saturate_i64}
use arxia.Prelude.Result.{Result, ok}
use arxia.Crypto.{verify}
use arxia.Crypto.Toy.{toy, pad, encode, decode, digit, digit_value}
use arxia.Relay.Signed.{
  RelayReceipt, SlashingProof, receipt_message, slashing_message, decode_hex_32, verify_receipt,
  verify_proof,
}
use arxia.Relay.Scoring.{
  RelayScore, new, prune_rolling, rolling_score, slash, record_success, success_checks,
  success_then, slash_checks,
}
use arxia.Relay.Scoring.Reference.{Call, success_at, success, failure, accepted, failures, hashes}
use arxia.Relay.Scoring.Credits.{after, score_lem}
use arxia.Relay.Scoring.Rolling.{rolling_score-prune_rolling}
use arxia.Relay.Scoring.Slashing.{slash_again}

abbrev key : Bytes
unfolding pad
key = pad 32 (9 ∷ [])

abbrev relay_id : Str
unfolding encode
relay_id = encode key

abbrev bytes_of : {E : Type 0} → Result E Bytes → Bytes
bytes_of (ok b) = b
bytes_of r = []

abbrev unsigned : RelayReceipt
unfolding encode pad
unsigned = record {
  relay_id = relay_id;
  message_hash = encode (pad 32 (5 ∷ []));
  timestamp = 0;
  signature = [];
  hop_count = 3;
}

abbrev receipt : RelayReceipt
unfolding receipt_message decode_hex_32 decode
receipt = record unsigned { signature = toy.sign key (bytes_of (receipt_message toy unsigned)) }

abbrev accusation : SlashingProof
accusation = record {
  observer_pubkey = key;
  target_relay_id = relay_id;
  reason = 111 ∷ [];
  signature = [];
}

abbrev proof : SlashingProof
unfolding slashing_message decode_hex_32 decode
proof = record accusation { signature = toy.sign key (bytes_of (slashing_message toy accusation)) }

credited : (record_success toy (new relay_id) receipt).0 ≡ ok tt
unfolding record_success success_checks success_then verify_receipt receipt_message decode_hex_32
    verify decode new cmp_str unsigned digit digit_value lookup
credited = refl

slashed : (slash toy (new relay_id) (pos 10) proof).0 ≡ ok tt
unfolding slash slash_checks verify_proof slashing_message decode_hex_32 verify decode new cmp_str
    proof relay_id key digit digit_value
slashed = refl

-- A message that counts once, a failure, and the same receipt again.
abbrev calls : List Call
calls = success receipt ∷ failure ∷ success_at receipt 5 ∷ []

score_lem_example :
    ((after toy relay_id calls).score
      ≡ diff (100 + length (accepted toy relay_id calls)) (5 * failures calls))
    × ((after toy relay_id calls).messages_relayed ≡ length (accepted toy relay_id calls))
    × ((after toy relay_id calls).messages_failed ≡ failures calls)
    × IsNodup (hashes toy relay_id (accepted toy relay_id calls))
score_lem_example = score_lem toy relay_id calls (omega arith)

abbrev busy : RelayScore
unfolding new
busy = record (new relay_id) { rolling_events = (7, pos 1) ∷ (3_000_000_000, negsuc 4) ∷ [] }

rolling_score-prune_rolling_example :
    rolling_score (prune_rolling busy 3_000_000_000) 3_000_000_001
    ≡ rolling_score busy 3_000_000_001
rolling_score-prune_rolling_example =
    rolling_score-prune_rolling busy 3_000_000_000 3_000_000_001 (omega arith)

slash_again_example :
    ((slash toy (new relay_id) (pos 20) proof).0 ≡ ok tt)
    × ((slash toy (slash toy (new relay_id) (pos 20) proof).1 (pos 30) proof).0 ≡ ok tt)
    × ((slash toy (slash toy (new relay_id) (pos 20) proof).1 (pos 30) proof).1.score
        ≡ saturate_i64 (saturate_i64 ((new relay_id).score -ℤ pos 20) -ℤ pos 30))
slash_again_example = slash_again toy (new relay_id) proof 10 20 30 slashed
