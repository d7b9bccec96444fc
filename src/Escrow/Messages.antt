-- ===== src/Escrow/Messages.antt =====
-- What the signed messages bind: the action and every field of the escrow but its state.
use arxia.Prelude.{
  ◌≡◌, ◌≢◌, ◌++◌, length, arith, append-injective, Option-cases, inl, inr, some, sym, ◌∙◌,
}
use arxia.Prelude.Words.{Bytes, IsU64, to_be_bytes, length-to_be_bytes, to_be_bytes-injective}
use arxia.Prelude.Result.{ok, Result-cases}
use arxia.Crypto.{Primitives}
use arxia.Escrow.{Escrow, identity_bytes, release_message, refund_message}

module _ (c : Primitives) where
  -- The parts of an identity.
  record Identity (e : Escrow) (m : Bytes) : Type 0 where
    sender_bytes : Bytes
    recipient_bytes : Bytes
    sender_decodes : c.hex_decode e.sender ≡ some sender_bytes
    recipient_decodes : c.hex_decode e.recipient ≡ some recipient_bytes
    sender_length : length sender_bytes ≡ 32
    recipient_length : length recipient_bytes ≡ 32
    layout :
        m ≡ sender_bytes ++ (recipient_bytes ++ (to_be_bytes e.amount ++ to_be_bytes e.timeout))

  identity_bytes-Identity : (e : Escrow) (m : Bytes) → identity_bytes c e ≡ ok m → Identity e m
  unfolding identity_bytes
  identity_bytes-Identity e m h = elim (Option-cases (c.hex_decode e.sender)) [
    | inl p ↦ absurd (ground arith)
    | inr (s, p) ↦ elim (Option-cases (c.hex_decode e.recipient)) [
      | inl q ↦ absurd (ground arith)
      | inr (r, q) ↦ record {
        sender_bytes = s;
        recipient_bytes = r;
        sender_decodes = p;
        recipient_decodes = q;
        sender_length = ground arith;
        recipient_length = ground arith;
        layout = ground arith;
      }
    ]
  ]

  -- Two escrows whose identities agree have the same keys, amount and timeout.
  abbrev SameTerms : Escrow → Escrow → Type 0
  SameTerms e e' =
      (c.hex_decode e.sender ≡ c.hex_decode e'.sender)
      × (c.hex_decode e.recipient ≡ c.hex_decode e'.recipient)
      × (e.amount ≡ e'.amount)
      × (e.timeout ≡ e'.timeout)

  identity_bytes-injective :
      (e e' : Escrow) (m : Bytes)
      → IsU64 e.amount
      → IsU64 e'.amount
      → IsU64 e.timeout
      → IsU64 e'.timeout
      → identity_bytes c e ≡ ok m
      → identity_bytes c e' ≡ ok m
      → SameTerms e e'
  identity_bytes-injective e e' m ha ha' ht ht' h h' =
      let i = identity_bytes-Identity e m h in
      let j = identity_bytes-Identity e' m h' in
      let s =
        append-injective i.sender_bytes j.sender_bytes (i.sender_length ∙ sym j.sender_length)
          (sym i.layout ∙ j.layout) in
      let r =
        append-injective i.recipient_bytes j.recipient_bytes
          (i.recipient_length ∙ sym j.recipient_length) s.1 in
      let a =
        append-injective (to_be_bytes e.amount) (to_be_bytes e'.amount)
          (length-to_be_bytes e.amount ∙ sym (length-to_be_bytes e'.amount)) r.1 in
      (
        cc (i.sender_decodes, j.sender_decodes, s.0),
        cc (i.recipient_decodes, j.recipient_decodes, r.0),
        to_be_bytes-injective _ _ ha ha' a.0,
        to_be_bytes-injective _ _ ht ht' a.1,
      )

  -- A release message determines the decoded keys, the amount and the timeout of its escrow,
  -- amount and timeout being `u64` values: a signature over it is for one set of terms.
  release_message-injective :
      (e e' : Escrow) (m : Bytes)
      → IsU64 e.amount
      → IsU64 e'.amount
      → IsU64 e.timeout
      → IsU64 e'.timeout
      → release_message c e ≡ ok m
      → release_message c e' ≡ ok m
      → SameTerms e e'
  unfolding release_message
  release_message-injective e e' m ha ha' ht ht' h h' = elim (Result-cases (identity_bytes c e)) [
    | inr p ↦ absurd (ground arith)
    | inl (i, p) ↦ elim (Result-cases (identity_bytes c e')) [
      | inr q ↦ absurd (ground arith)
      | inl (j, q) ↦ identity_bytes-injective e e' i ha ha' ht ht' p (ground arith)
    ]
  ]

  -- No message authorizes both a release and a refund, of one escrow or of two.
  release_message-ne-refund_message :
      (e e' : Escrow) (m n : Bytes)
      → release_message c e ≡ ok m
      → refund_message c e' ≡ ok n
      → m ≢ n
  unfolding release_message refund_message
  release_message-ne-refund_message e e' m n h k same = elim (Result-cases (identity_bytes c e)) [
    | inr p ↦ ground arith
    | inl (i, p) ↦ elim (Result-cases (identity_bytes c e')) [
      | inr q ↦ ground arith
      | inl (j, q) ↦ ground arith
    ]
  ]
