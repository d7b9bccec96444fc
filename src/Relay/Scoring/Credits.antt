-- ===== src/Relay/Scoring/Credits.antt =====
-- Any calls of the methods that record successes and failures.
use arxia.Prelude.{ℕ, ◌+◌, ◌*◌, ◌≤◌, ◌^◌, ◌≡◌, refl, List, [], ◌∷◌, length, arith}
use arxia.Prelude.Ord.{Str, str_ord}
use arxia.Prelude.Words.{Bytes}
use arxia.Prelude.Int.{ℤ, pos, negsuc, diff}
use arxia.Prelude.Elem.{IsNodup}
use arxia.Crypto.{Primitives}
use arxia.Relay.Scoring.{
  RelayScore, new, record_failure, record_failure_at, record_failure_for_target, note_event,
  prune_rolling, count_success, record_success, record_success_at, record_success_for_target,
}
use arxia.Relay.Scoring.Counting.{
  IsCounted, Agrees, new-IsCounted, record_failure-IsCounted, Agrees-refl, Agrees-IsCounted,
  success_then-IsCounted,
}
use arxia.Relay.Scoring.Reference.{
  Call, success, success_at, success_for_target, failure, failure_at, failure_for_target, hashes,
  accepted, failures, few, accepted-IsNodup,
}

module _ (c : Primitives) (id : Str) where
  -- The score after a call.
  abbrev step : Call → RelayScore → RelayScore
  step (success r) s = (record_success c s r).1
  step (success_at r now_ms) s = (record_success_at c s r now_ms).1
  step (success_for_target r target) s = (record_success_for_target c s r target).1
  step failure s = record_failure s
  step (failure_at now_ms) s = record_failure_at s now_ms
  step (failure_for_target target) s = record_failure_for_target s target

  note_event-Agrees : (now_ms : ℕ) (d : ℤ) (s : RelayScore) → Agrees s (note_event now_ms d s)
  unfolding note_event prune_rolling
  note_event-Agrees now_ms d s = record {
    same_relay = refl;
    same_credits = refl;
    same_relayed = refl;
    same_failed = refl;
    same_score = refl;
  }

  count_success-Agrees : (target : Bytes) (s : RelayScore) → Agrees s (count_success target s)
  unfolding count_success
  count_success-Agrees target s = record {
    same_relay = refl;
    same_credits = refl;
    same_relayed = refl;
    same_failed = refl;
    same_score = refl;
  }

  failure_for_target-Agrees :
      (s : RelayScore) (target : Bytes)
      → Agrees (record_failure s) (record_failure_for_target s target)
  unfolding record_failure_for_target
  failure_for_target-Agrees s target = record {
    same_relay = refl;
    same_credits = refl;
    same_relayed = refl;
    same_failed = refl;
    same_score = refl;
  }

  -- The score after a history of calls, the last one first.
  pub after : List Call → RelayScore
  after [] = new id
  after (call ∷ calls) = step call (after calls)

  after-IsCounted :
      (calls : List Call)
      → length calls ≤ 2 ^ 59
      → IsCounted c id (accepted c id calls) (failures calls) (after calls)
  unfolding after accepted failures record_success record_success_at record_success_for_target
      record_failure_at
  after-IsCounted [] le = new-IsCounted c id
  after-IsCounted (success r ∷ calls) le =
      success_then-IsCounted c id _ (accepted c id calls) (failures calls) (after calls) r
        (λ t. Agrees-refl t) (omega (arith, few c id calls)) (after-IsCounted calls (omega arith))
  after-IsCounted (success_at r now_ms ∷ calls) le =
      success_then-IsCounted c id _ (accepted c id calls) (failures calls) (after calls) r
        (note_event-Agrees now_ms (pos 1)) (omega (arith, few c id calls))
        (after-IsCounted calls (omega arith))
  after-IsCounted (success_for_target r target ∷ calls) le =
      success_then-IsCounted c id _ (accepted c id calls) (failures calls) (after calls) r
        (count_success-Agrees target) (omega (arith, few c id calls))
        (after-IsCounted calls (omega arith))
  after-IsCounted (failure ∷ calls) le =
      record_failure-IsCounted c id (accepted c id calls) (failures calls) (after calls)
        (omega (arith, few c id calls)) (after-IsCounted calls (omega arith))
  after-IsCounted (failure_at now_ms ∷ calls) le =
      Agrees-IsCounted c id (accepted c id calls) (failures calls + 1)
        (record_failure (after calls)) _ (note_event-Agrees now_ms (negsuc 4) _)
        (record_failure-IsCounted c id (accepted c id calls) (failures calls) (after calls)
          (omega (arith, few c id calls)) (after-IsCounted calls (omega arith)))
  after-IsCounted (failure_for_target target ∷ calls) le =
      Agrees-IsCounted c id (accepted c id calls) (failures calls + 1)
        (record_failure (after calls)) _ (failure_for_target-Agrees (after calls) target)
        (record_failure-IsCounted c id (accepted c id calls) (failures calls) (after calls)
          (omega (arith, few c id calls)) (after-IsCounted calls (omega arith)))

  -- After up to 2^59 calls that record successes and failures, the score is 100, one more for each
  -- receipt that counts and five fewer for each call that records a failure, with no overflow, and the
  -- two counters are their numbers. A receipt counts exactly if it is of this relay, it verifies, and
  -- none that counted before is for the same message; so no message counts twice.
  pub score_lem :
      (calls : List Call)
      → length calls ≤ 2 ^ 59
      → ((after calls).score ≡ diff (100 + length (accepted c id calls)) (5 * failures calls))
        × ((after calls).messages_relayed ≡ length (accepted c id calls))
        × ((after calls).messages_failed ≡ failures calls)
        × IsNodup (hashes c id (accepted c id calls))
  score_lem calls le =
      let v = after-IsCounted calls le in
      (v.score_eq, v.relayed, v.failed_eq, accepted-IsNodup c id calls)
