-- ===== src/Finality/Quorum.antt =====
-- The votes for a block weigh the stake of the validators that cast them, each once.
use arxia.Prelude.{
  ℕ, ◌*◌, ◌≤◌, ◌<◌, ◌≡◌, sym, ap, ◌∙◌, Bool, true, false, ◌&&◌, ◌||◌, inl, inr, List, [], ◌∷◌,
  arith, ltb, leb, Bool-cases,
}
use arxia.Prelude.Ord.{str_ord, eqb, eqb_iff}
use arxia.Prelude.Map.{Set, lookup, insert, contains_key, IsSorted}
use arxia.Prelude.Map.Laws.{lookup-insert}
use arxia.Prelude.Map.Sums.{
  fold_values, sum_values, sum_where, sum_where_le, sum_where_ext, sum_where_agree, sum_where_more,
  sum_where_none, fold_values-sum_values,
}
use arxia.Prelude.Words.{Bytes, u64_max, saturating_mul}
use arxia.Prelude.Result.{Result, ok, then_assoc, then-ok_map, ◌>>◌}
use arxia.Crypto.{Primitives}
use arxia.Finality.{
  FinalityError, SignedValidatorVote, ValidatorRegistry, total_stake, is_eligible, Count, accept,
  verify_vote, count_votes, has_l2_quorum,
}

-- Whether some vote names the validator and the block.
pub has_voted : Bytes → List SignedValidatorVote → Bytes → Bool
has_voted block_hash [] k = false
has_voted block_hash (vote ∷ votes) k =
    (eqb k vote.validator_pubkey && eqb vote.block_hash block_hash) || has_voted block_hash votes k

-- The stake of the registered validators that voted for the block.
abbrev pub voted_stake : ValidatorRegistry → Bytes → List SignedValidatorVote → ℕ
voted_stake registry block_hash votes = sum_where (has_voted block_hash votes) registry

-- The count is the stake of the validators counted.
IsExact : ValidatorRegistry → Count → Type 0
IsExact registry count = count.1 ≡ sum_where (λ k. contains_key k count.0) registry

contains_key-insert :
    (j k : Bytes) (s : Set Bytes) → contains_key j (insert k tt s) ≡ (eqb j k || contains_key j s)
contains_key-insert j k s = ground (arith, lookup-insert j k tt s)

accept-IsExact :
    (registry : ValidatorRegistry) (vote : SignedValidatorVote) (counted : Set Bytes) (accepted : ℕ)
    → IsSorted registry
    → sum_values registry ≤ u64_max
    → IsExact registry (counted, accepted)
    → IsExact registry (accept registry vote (counted, accepted))
unfolding accept IsExact
accept-IsExact registry vote counted accepted s le e =
    elim (Bool-cases (contains_key vote.validator_pubkey counted)) [
      | inl old ↦ rw (accept, old) e
      | inr new ↦
          let k = vote.validator_pubkey in
          let more =
            sum_where_more (λ j. contains_key j counted) (λ j. contains_key j (insert k tt counted))
              k registry s new (ground (arith, contains_key-insert k k counted, eqb_iff k k))
              (λ j d. ground (arith, contains_key-insert j k counted, d)) in
          let fits = sum_where_le (λ j. contains_key j (insert k tt counted)) registry in
          rw (accept, new) (ground (arith, more, fits, le, e))
    ]

contains_key-accept :
    (registry : ValidatorRegistry) (vote : SignedValidatorVote) (counted : Set Bytes) (accepted : ℕ)
    (j : Bytes)
    → contains_key j (accept registry vote (counted, accepted)).0
      ≡ (eqb j vote.validator_pubkey || contains_key j counted)
unfolding accept
contains_key-accept registry vote counted accepted j =
    ground
      (arith, contains_key-insert j vote.validator_pubkey counted, eqb_iff j vote.validator_pubkey)

-- The products of the test do not saturate.
quorum_test :
    (sum voted : ℕ)
    → 100 * sum ≤ u64_max
    → voted ≤ sum
    → leb (saturating_mul sum 67) (saturating_mul voted 100) ≡ leb (67 * sum) (100 * voted)
quorum_test sum voted small le = ground arith

positive : (sum : ℕ) → 0 < sum → ltb 0 sum ≡ true
positive sum h = ground arith

module _ (c : Primitives) where
  -- The votes that the loop looks at all verify, or the first that does not gives its error.
  pub verify_votes :
      ValidatorRegistry → Bytes → List SignedValidatorVote → Result FinalityError (Unit {0})
  verify_votes registry block_hash [] = ok tt
  verify_votes registry block_hash (vote ∷ votes) = elim (is_eligible registry block_hash vote) [
    | false ↦ verify_votes registry block_hash votes
    | true ↦ verify_vote c vote >> verify_votes registry block_hash votes
  ]

  module _ (registry : ValidatorRegistry) (block_hash : Bytes) (s : IsSorted registry)
      (fits : sum_values registry ≤ u64_max) where
    -- A vote that the loop passes over changes no registered validator's weight.
    skipped :
        (vote : SignedValidatorVote) (votes : List SignedValidatorVote) (counted : Set Bytes)
        → is_eligible registry block_hash vote ≡ false
        → sum_where (λ k. contains_key k counted || has_voted block_hash votes k) registry
          ≡ sum_where
              (λ k. contains_key k counted || has_voted block_hash (vote ∷ votes) k)
              registry
    unfolding has_voted
    skipped vote votes counted e =
        sum_where_agree (λ k. contains_key k counted || has_voted block_hash votes k)
          (λ k. contains_key k counted || has_voted block_hash (vote ∷ votes) k) registry
          (λ k h. ground (arith, eqb_iff k vote.validator_pubkey, e, h))

    counted_in :
        (vote : SignedValidatorVote) (votes : List SignedValidatorVote) (counted : Set Bytes)
        (accepted : ℕ)
        → is_eligible registry block_hash vote ≡ true
        → sum_where
            (λ k.
              contains_key k (accept registry vote (counted, accepted)).0
              || has_voted block_hash votes k)
            registry
          ≡ sum_where
              (λ k. contains_key k counted || has_voted block_hash (vote ∷ votes) k)
              registry
    unfolding has_voted
    counted_in vote votes counted accepted e =
        sum_where_ext
          (λ k.
            contains_key k (accept registry vote (counted, accepted)).0
            || has_voted block_hash votes k)
          (λ k. contains_key k counted || has_voted block_hash (vote ∷ votes) k) registry
          (λ k. ground (arith, contains_key-accept registry vote counted accepted k, e))

    count_votes_lem :
        (votes : List SignedValidatorVote) (counted : Set Bytes) (accepted : ℕ)
        → IsExact registry (counted, accepted)
        → count_votes c registry block_hash votes (counted, accepted) ≡ (
            verify_votes registry block_hash votes
            >> ok
                (sum_where (λ k. contains_key k counted || has_voted block_hash votes k) registry))
    unfolding count_votes verify_votes has_voted IsExact
    count_votes_lem [] counted accepted e = ground (
      arith,
      e,
      sum_where_ext (λ k. contains_key k counted) (λ k. contains_key k counted || false) registry
          (λ k. ground arith),
    )
    count_votes_lem (vote ∷ votes) counted accepted e =
        elim (Bool-cases (is_eligible registry block_hash vote)) [
          | inl eligible ↦
              let next = accept registry vote (counted, accepted) in
              let ih =
                count_votes_lem votes next.0 next.1
                  (accept-IsExact registry vote counted accepted s fits e) in
              let same = counted_in vote votes counted accepted eligible in
              let total =
                sum_where (λ k. contains_key k counted || has_voted block_hash (vote ∷ votes) k)
                  registry in
              rw
                (
                  eligible,
                  count_votes,
                  verify_votes,
                  then_assoc (verify_vote c vote) (verify_votes registry block_hash votes)
                      (ok total),
                )
                (ap (λ r. verify_vote c vote >> r) (rw (ih, same)))
          | inr other ↦
              rw (other, count_votes, verify_votes)
                (count_votes_lem votes counted accepted e ∙ rw (skipped vote votes counted other))
        ]

    -- In a registry in order of its keys whose stakes are not all zero and add up to at most (2^64
    -- - 1) / 100: whether the votes reach L2 is decided exactly by the stake of the registered
    -- validators that voted for the block, each counted once, against 67 hundredths of the
    -- registered stake; but the first vote of a registered validator for the block that does not
    -- verify gives its error.
    pub has_l2_quorum_lem :
        (votes : List SignedValidatorVote)
        → 100 * sum_values registry ≤ u64_max
        → 0 < sum_values registry
        → has_l2_quorum c registry block_hash votes ≡ (
            verify_votes registry block_hash votes
            >> ok (leb (67 * sum_values registry) (100 * voted_stake registry block_hash votes)))
    unfolding has_l2_quorum total_stake lookup IsExact
    has_l2_quorum_lem votes small some_stake =
        let sum = sum_values registry in
        let total : fold_values 0 registry ≡ sum =
          fold_values-sum_values 0 registry (omega arith) ∙ omega arith in
        let start = count_votes_lem votes [] 0 (sym (sum_where_none registry)) in
        let le = sum_where_le (has_voted block_hash votes) registry in
        rw (total, positive sum some_stake, start)
          (then-ok_map (verify_votes registry block_hash votes)
              (voted_stake registry block_hash votes)
              (λ n. leb (saturating_mul sum 67) (saturating_mul n 100))
            ∙ ap (λ b. verify_votes registry block_hash votes >> ok b)
                (quorum_test sum (voted_stake registry block_hash votes) small le))
