-- ===== src/Escrow/Tests.antt =====
-- One escrow at which the theorems on `Escrow` are applied.
use arxia.Prelude.{◌≤◌, ◌≡◌, ◌⊎◌, refl, false, List, [], ◌∷◌, ◌++◌, replicate}
use arxia.Prelude.Ord.{cmp_str}
use arxia.Prelude.Words.{Bytes, to_be_bytes}
use arxia.Prelude.Result.{ok}
use arxia.Crypto.Toy.{toy, encode, decode, digit, digit_value, pad}
use arxia.Escrow.{
  Escrow, locked, released, is_locked, release, release_message, refund_message, identity_bytes,
  escrow_release_domain, escrow_refund_domain, release_checks, Call,
}
use arxia.Escrow.Sequences.{run, successes, settles_once}

abbrev payer : Bytes
payer = replicate 32 1

abbrev payee : Bytes
payee = replicate 32 2

abbrev deal : Escrow
deal = record {
  sender = encode payer;
  recipient = encode payee;
  amount = 50;
  state = locked;
  timeout = 100;
}

abbrev terms : Bytes
terms = payer ++ (payee ++ (to_be_bytes 50 ++ to_be_bytes 100))

abbrev release_signature : Bytes
release_signature = toy.sign payee (escrow_release_domain ++ terms)

abbrev refund_signature : Bytes
refund_signature = toy.sign payer (escrow_refund_domain ++ terms)

release_formed : release_message toy deal ≡ ok (escrow_release_domain ++ terms)
unfolding release_message identity_bytes encode decode digit digit_value
release_formed = refl

refund_formed : refund_message toy deal ≡ ok (escrow_refund_domain ++ terms)
unfolding refund_message identity_bytes encode decode digit digit_value
refund_formed = refl

release_succeeds :
    release toy deal payee release_signature ≡ (ok tt, record deal { state = released })
unfolding release release_checks release_message identity_bytes encode decode digit digit_value pad
    cmp_str
release_succeeds = refl

-- A refund that comes too early, a release, and a refund after it.
abbrev calls : List (Call toy)
calls =
    Call.refund_call payer refund_signature 99
    ∷ Call.release_call payee release_signature
    ∷ Call.refund_call payer refund_signature 100
    ∷ []

settles_once_example :
    (successes toy deal calls ≤ 1)
    × (((successes toy deal calls ≡ 0) × (run toy deal calls ≡ deal))
        ⊎ ((successes toy deal calls ≡ 1) × (is_locked (run toy deal calls).state ≡ false)))
settles_once_example = settles_once toy deal calls
