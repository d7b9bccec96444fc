-- ===== src/Transport/Reassembly/Tests.antt =====
-- Fragments at which the theorems on them are applied.
use arxia.Prelude.{ℕ, [], ◌∷◌, arith}
use arxia.Prelude.Words.{Bytes}
use arxia.Crypto.Toy.{toy}
use arxia.Transport.Reassembly.{Fragment, canonical_bytes, feed}
use arxia.Transport.Reassembly.Feeding.{IsOutcome}
use arxia.Transport.Reassembly.Histories.{after, feed_sound}

abbrev fragment : ℕ → Bytes → Fragment
fragment seq payload = record {
  header = record {
    peer_pubkey = 7 ∷ [];
    message_id = 1 ∷ [];
    seq = seq;
    total = 2;
    signature = toy.sign (7 ∷ []) (canonical_bytes (7 ∷ []) (1 ∷ []) seq 2 payload);
  };
  payload = payload;
}

feed_sound_example :
    IsOutcome toy
      (fragment 1 (5 ∷ []) ∷ [])
      (fragment 0 (4 ∷ []))
      (feed toy (after toy (fragment 1 (5 ∷ []) ∷ [])) (fragment 0 (4 ∷ [])))
feed_sound_example =
    feed_sound toy (fragment 1 (5 ∷ []) ∷ []) (fragment 0 (4 ∷ [])) (omega arith, tt) (omega arith)
