-- ===== src/Escrow/Settlement.antt =====
-- When `release` and `refund` succeed, and what they leave.
use arxia.Prelude.{ℕ, ◌≤◌, ◌≡◌, ◌↔◌, true, some, if◌then◌else◌, arith, Option-cases, inl, inr}
use arxia.Prelude.Ord.{eqb_iff, str_ord}
use arxia.Prelude.Words.{Bytes}
use arxia.Prelude.Result.{ok, is_ok, Result-cases}
use arxia.Crypto.{Primitives}
use arxia.Escrow.{
  Escrow, locked, released, refunded, release_message, refund_message, identity_bytes,
  release_checks, refund_checks, release, refund,
}

module _ (c : Primitives) where
  -- What `release` asks for.
  pub record Releasable (e : Escrow) (caller signature : Bytes) : Type 0 where
    pub is_open : e.state ≡ locked
    by_recipient : c.hex_decode e.recipient ≡ some caller
    pub message : Bytes
    pub formed : release_message c e ≡ ok message
    pub valid_key : c.is_point caller ≡ true
    pub signed : c.verify_lenient caller message signature ≡ true

  -- What `refund` asks for.
  pub record Refundable (e : Escrow) (caller signature : Bytes) (now : ℕ) : Type 0 where
    pub is_open : e.state ≡ locked
    pub elapsed : e.timeout ≤ now
    by_sender : c.hex_decode e.sender ≡ some caller
    pub message : Bytes
    pub formed : refund_message c e ≡ ok message
    pub valid_key : c.is_point caller ≡ true
    pub signed : c.verify_lenient caller message signature ≡ true

  release_checks→Releasable :
      (e : Escrow) (caller signature : Bytes)
      → release_checks c e caller signature ≡ ok tt
      → Releasable e caller signature
  unfolding release_checks
  release_checks→Releasable e caller signature h = elim (Option-cases (c.hex_decode e.recipient)) [
    | inl p ↦ absurd (ground arith)
    | inr (r, p) ↦ elim (Result-cases (release_message c e)) [
      | inr q ↦ absurd (ground arith)
      | inl (m, q) ↦ record {
        is_open = ground arith;
        by_recipient = ground (arith, eqb_iff r caller);
        message = m;
        formed = q;
        valid_key = ground arith;
        signed = ground arith;
      }
    ]
  ]

  refund_checks→Refundable :
      (e : Escrow) (caller signature : Bytes) (now : ℕ)
      → refund_checks c e caller signature now ≡ ok tt
      → Refundable e caller signature now
  unfolding refund_checks
  refund_checks→Refundable e caller signature now h = elim (Option-cases (c.hex_decode e.sender)) [
    | inl p ↦ absurd (ground arith)
    | inr (r, p) ↦ elim (Result-cases (refund_message c e)) [
      | inr q ↦ absurd (ground arith)
      | inl (m, q) ↦ record {
        is_open = ground arith;
        elapsed = ground arith;
        by_sender = ground (arith, eqb_iff r caller);
        message = m;
        formed = q;
        valid_key = ground arith;
        signed = ground arith;
      }
    ]
  ]

  Releasable→release_checks :
      (e : Escrow) (caller signature : Bytes)
      → Releasable e caller signature
      → release_checks c e caller signature ≡ ok tt
  unfolding release_checks release_message identity_bytes
  Releasable→release_checks e caller signature h =
      ground (arith, h.by_recipient, h.formed, h.signed, eqb_iff caller caller)

  Refundable→refund_checks :
      (e : Escrow) (caller signature : Bytes) (now : ℕ)
      → Refundable e caller signature now
      → refund_checks c e caller signature now ≡ ok tt
  unfolding refund_checks refund_message identity_bytes
  Refundable→refund_checks e caller signature now h =
      ground (arith, h.by_sender, h.formed, h.signed, eqb_iff caller caller)

  -- `release` succeeds exactly when the escrow is locked, the caller is the decoded recipient, its
  -- key is a curve point and it has signed the release message. Then only the state changes, to
  -- `released`; in every other case the escrow stays as it was.
  release_iff :
      (e : Escrow) (caller signature : Bytes)
      → let (r, e') = release c e caller signature in
        ((r ≡ ok tt) ↔ Releasable e caller signature)
        × (e' ≡ (if is_ok r then record e { state = released } else e))
  unfolding release
  release_iff e caller signature =
      let (r, e') = release c e caller signature in
      (
        (
          (λ h. release_checks→Releasable e caller signature (ground arith)),
          (λ h. ground (arith, Releasable→release_checks e caller signature h)),
        ),
        ground arith,
      )

  -- `refund` succeeds exactly when the escrow is locked, the timeout is not in the future, the
  -- caller is the decoded sender, its key is a curve point and it has signed the refund message.
  -- Then only the state changes, to `refunded`; in every other case the escrow stays as it was.
  refund_iff :
      (e : Escrow) (caller signature : Bytes) (now : ℕ)
      → let (r, e') = refund c e caller signature now in
        ((r ≡ ok tt) ↔ Refundable e caller signature now)
        × (e' ≡ (if is_ok r then record e { state = refunded } else e))
  unfolding refund
  refund_iff e caller signature now = (
    (
      (λ h. refund_checks→Refundable e caller signature now (ground arith)),
      (λ h. ground (arith, Refundable→refund_checks e caller signature now h)),
    ),
    ground arith,
  )
