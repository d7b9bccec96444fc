-- ===== src/Relay/Scoring/Counting.antt =====
-- What one receipt or one failure does to the score and the counters of a relay.
use arxia.Prelude.{
  ℕ, ◌+◌, ◌*◌, ◌≤◌, ◌^◌, ◌≡◌, refl, ap, ◌∙◌, false, List, [], ◌∷◌, length, arith, true, Bool-cases,
  inl, inr,
}
use arxia.Prelude.Ord.{Str, str_ord}
use arxia.Prelude.Map.{contains_key, IsSorted, lookup}
use arxia.Prelude.Map.Laws.{insert-IsSorted, lookup-insert}
use arxia.Prelude.Words.{Bytes, wrap_add}
use arxia.Prelude.Int.{pos, neg, diff, ◌+ℤ◌, ◌-ℤ◌, wrap_i64}
use arxia.Prelude.Result.{Result, ok, err, panic, is_ok}
use arxia.Prelude.Elem.{elem}
use arxia.Relay.Signed.{
  verify_receipt, receipt_message, decode_hex_32, RelayReceipt, RelayReceiptError,
}
use arxia.Crypto.{Primitives}
use arxia.Relay.Scoring.{RelayScore, new, credit, record_failure, success_checks, success_then}
use arxia.Relay.Scoring.Reference.{hash_of, hashes, is_credible, accept}

wrap_up :
    (m b : ℕ)
    → m + b ≤ 2 ^ 59
    → wrap_i64 (diff (100 + m) (5 * b) +ℤ pos 1) ≡ diff (100 + wrap_add m 1) (5 * b)
unfolding wrap_i64 diff neg ◌+ℤ◌
wrap_up m b h = ground arith

wrap_down :
    (m b : ℕ)
    → m + b ≤ 2 ^ 59
    → wrap_i64 (diff (100 + m) (5 * b) -ℤ pos 5) ≡ diff (100 + m) (5 * wrap_add b 1)
unfolding wrap_i64 diff neg ◌-ℤ◌
wrap_down m b h = ground arith

-- Two scores that agree but for their events and their counts by target.
pub record Agrees (s t : RelayScore) : Type 0 where
  pub same_relay : t.relay_id ≡ s.relay_id
  pub same_credits : t.credited_messages ≡ s.credited_messages
  pub same_relayed : t.messages_relayed ≡ s.messages_relayed
  pub same_failed : t.messages_failed ≡ s.messages_failed
  pub same_score : t.score ≡ s.score

pub Agrees-refl : (s : RelayScore) → Agrees s s
Agrees-refl s = record {
  same_relay = refl;
  same_credits = refl;
  same_relayed = refl;
  same_failed = refl;
  same_score = refl;
}

module _ (c : Primitives) (id : Str) where
  -- A score to which the receipts have been credited, and that many failures recorded.
  pub record IsCounted (rs : List RelayReceipt) (failed : ℕ) (s : RelayScore) : Type 0 where
    relay : s.relay_id ≡ id
    pub ordered : IsSorted s.credited_messages
    pub known : (b : Bytes) → contains_key b s.credited_messages ≡ elem b (hashes c id rs)
    pub relayed : s.messages_relayed ≡ length rs
    pub failed_eq : s.messages_failed ≡ failed
    pub score_eq : s.score ≡ diff (100 + length rs) (5 * failed)

  pub new-IsCounted : IsCounted [] 0 (new id)
  unfolding new diff lookup
  new-IsCounted = record {
    relay = refl;
    ordered = tt;
    known = λ b. refl;
    relayed = refl;
    failed_eq = refl;
    score_eq = refl;
  }

  credit-IsCounted :
      (rs : List RelayReceipt) (failed : ℕ) (s : RelayScore) (r : RelayReceipt)
      → length rs + failed ≤ 2 ^ 59
      → elem (hash_of c id r) (hashes c id rs) ≡ false
      → IsCounted rs failed s
      → IsCounted (r ∷ rs) failed (credit (hash_of c id r) s)
  unfolding credit
  credit-IsCounted rs failed s r le fresh v = record {
    relay = v.relay;
    ordered = insert-IsSorted (hash_of c id r) tt s.credited_messages v.ordered;
    known = λ b. ground (arith, v.known b, lookup-insert b (hash_of c id r) tt s.credited_messages);
    relayed = omega (arith, v.relayed);
    failed_eq = v.failed_eq;
    score_eq =
        ap (λ x. wrap_i64 (x +ℤ pos 1)) v.score_eq
        ∙ wrap_up (length rs) failed le
        ∙ ap (λ m. diff (100 + m) (5 * failed)) (omega arith);
  }

  pub record_failure-IsCounted :
      (rs : List RelayReceipt) (failed : ℕ) (s : RelayScore)
      → length rs + failed ≤ 2 ^ 59
      → IsCounted rs failed s
      → IsCounted rs (failed + 1) (record_failure s)
  unfolding record_failure
  record_failure-IsCounted rs failed s le v = record {
    relay = v.relay;
    ordered = v.ordered;
    known = v.known;
    relayed = v.relayed;
    failed_eq = omega (arith, v.failed_eq);
    score_eq =
        ap (λ x. wrap_i64 (x -ℤ pos 5)) v.score_eq
        ∙ wrap_down (length rs) failed le
        ∙ ap (λ n. diff (100 + length rs) (5 * n)) (omega arith);
  }

  pub Agrees-IsCounted :
      (rs : List RelayReceipt) (failed : ℕ) (s t : RelayScore)
      → Agrees s t
      → IsCounted rs failed s
      → IsCounted rs failed t
  Agrees-IsCounted rs failed s t a v = record {
    relay = a.same_relay ∙ v.relay;
    ordered = rw a.same_credits v.ordered;
    known = λ b. rw a.same_credits (v.known b);
    relayed = a.same_relayed ∙ v.relayed;
    failed_eq = a.same_failed ∙ v.failed_eq;
    score_eq = a.same_score ∙ v.score_eq;
  }

  success_checks-accepts :
      (rs : List RelayReceipt) (failed : ℕ) (s : RelayScore) (r : RelayReceipt)
      → IsCounted rs failed s
      → is_credible c id rs r ≡ true
      → success_checks c s r ≡ ok (hash_of c id r)
  unfolding success_checks verify_receipt receipt_message decode_hex_32
  success_checks-accepts rs failed s r v e = ground (arith, e, v.relay, v.known (hash_of c id r))

  success_checks-refuses :
      (rs : List RelayReceipt) (failed : ℕ) (s : RelayScore) (r : RelayReceipt)
      → IsCounted rs failed s
      → is_credible c id rs r ≡ false
      → is_ok (success_checks c s r) ≡ false
  unfolding success_checks verify_receipt receipt_message decode_hex_32
  success_checks-refuses rs failed s r v e = ground (arith, e, v.relay, v.known (hash_of c id r))

  refused_then :
      (after_credit : RelayScore → RelayScore) (s : RelayScore) (m : Result RelayReceiptError Bytes)
      → is_ok m ≡ false
      → (success_then c after_credit s m).1 ≡ s
  unfolding success_then
  refused_then after_credit s (ok b) e = cc
  refused_then after_credit s (err x) e = refl
  refused_then after_credit s panic e = refl

  pub success_then-IsCounted :
      (after_credit : RelayScore → RelayScore) (rs : List RelayReceipt) (failed : ℕ)
      (s : RelayScore) (r : RelayReceipt)
      → ((t : RelayScore) → Agrees t (after_credit t))
      → length rs + failed ≤ 2 ^ 59
      → IsCounted rs failed s
      → IsCounted (accept c id r rs) failed (success_then c after_credit s (success_checks c s r)).1
  unfolding success_then
  success_then-IsCounted after_credit rs failed s r h le v =
      elim (Bool-cases (is_credible c id rs r)) [
        | inl credible ↦
            rw (credible, success_checks-accepts rs failed s r v credible)
              (Agrees-IsCounted (r ∷ rs) failed (credit (hash_of c id r) s) _ (h _)
                (credit-IsCounted rs failed s r le (ground (arith, credible)) v))
        | inr refused ↦
            rw
              (
                refused,
                refused_then after_credit s (success_checks c s r)
                    (success_checks-refuses rs failed s r v refused),
              )
              v
      ]
