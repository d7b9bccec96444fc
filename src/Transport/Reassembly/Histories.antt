-- ===== src/Transport/Reassembly/Histories.antt =====
-- The reassembler after any fragments.
use arxia.Prelude.{◌<◌, List, [], ◌∷◌, All, arith}
use arxia.Prelude.Map.{lookup}
use arxia.Crypto.{Primitives}
use arxia.Transport.Reassembly.{Fragment, Reassembler, new, feed}
use arxia.Transport.Reassembly.Queues.{IsValid}
use arxia.Transport.Reassembly.Feeding.{IsOutcome, feed-IsOutcome}

-- The total of a fragment is a `u16`.
abbrev pub IsMachine : Fragment → Type 0
IsMachine f = f.header.total < 65536

module _ (c : Primitives) where
  -- The state after a history of fragments, the last one first.
  pub after : List Fragment → Reassembler
  after [] = new
  after (f ∷ history) = (feed c (after history) f).1

  new-IsValid : IsValid c [] new
  unfolding lookup
  new-IsValid = record { ordered = tt; within = λ p. omega arith; queues = λ p. tt }

  after-IsValid :
      (history : List Fragment) → All IsMachine history → IsValid c history (after history)
  unfolding after
  after-IsValid [] h = new-IsValid
  after-IsValid (f ∷ history) h =
      (feed-IsOutcome c history (after history) f (after-IsValid history h.1) h.0).valid

  -- Whatever fragments were fed before, and whoever made them, `feed` returns; no peer has more than 16
  -- messages in flight afterwards; and where it delivers bytes, they are the payloads of one message of
  -- the fragment's peer in the order of their places, from the first to the total that the fragment
  -- names, each taken from a fragment of that peer, message, place and total that was fed and whose
  -- signature verified under the key of the peer.
  pub feed_sound :
      (history : List Fragment) (f : Fragment)
      → All IsMachine history
      → IsMachine f
      → IsOutcome c history f (feed c (after history) f)
  feed_sound history f h small =
      feed-IsOutcome c history (after history) f (after-IsValid history h) small
