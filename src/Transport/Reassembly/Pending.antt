-- ===== src/Transport/Reassembly/Pending.antt =====
-- Where the payloads in the slots of a message come from.
use mathlib.Core.List.{Memᴰ}
use arxia.Prelude.{
  ℕ, ◌≤◌, ◌<◌, ◌≡◌, refl, sym, ◌∙◌, none, some, List, [], ◌∷◌, length, get_elem?, set, length-set,
  length-replicate, drop, All, arith, Bool-cases, inl, inr,
}
use arxia.Prelude.Ord.{eqb, eqb_iff, str_ord}
use arxia.Prelude.Words.{Bytes}
use arxia.Prelude.Result.{ok}
use arxia.Crypto.{Primitives, verify}
use arxia.Transport.Reassembly.{
  Fragment, PendingMessage, Queue, find, update, retain_others, fresh, succ_16, feed_checks,
  canonical_bytes, verify_fragment,
}
use arxia.Transport.Reassembly.Slots.{
  filled_slots, filled_slots-set, filled_slots-replicate, get_elem?-replicate-none, written,
  by_this, before,
}

-- The bytes that a fragment is signed over.
abbrev signed_bytes : Fragment → Bytes
signed_bytes f =
    canonical_bytes f.header.peer_pubkey f.header.message_id f.header.seq f.header.total f.payload

module _ (c : Primitives) where
  checks_verify :
      (f : Fragment)
      → feed_checks c f ≡ ok tt
      → verify c f.header.peer_pubkey (signed_bytes f) f.header.signature ≡ ok tt
  unfolding feed_checks verify_fragment
  checks_verify f e = ground (arith, e)

  -- Among the fragments of a history is one of the peer, the message, the place and the total with the
  -- payload, whose signature verifies under the key of the peer.
  pub record Sent (history : List Fragment) (peer mid : Bytes) (seq total : ℕ) (payload : Bytes)
      : Type 0 where
    pub fragment : Fragment
    fed : Memᴰ fragment history
    peer_eq : fragment.header.peer_pubkey ≡ peer
    mid_eq : fragment.header.message_id ≡ mid
    seq_eq : fragment.header.seq ≡ seq
    total_eq : fragment.header.total ≡ total
    payload_eq : fragment.payload ≡ payload
    pub verified :
        verify c fragment.header.peer_pubkey (signed_bytes fragment) fragment.header.signature
        ≡ ok tt

  Sent-later :
      {history : List Fragment} {peer mid : Bytes} {seq total : ℕ} {payload : Bytes} (f : Fragment)
      → Sent history peer mid seq total payload
      → Sent (f ∷ history) peer mid seq total payload
  Sent-later f s = record {
    fragment = s.fragment;
    fed = Memᴰ.tail s.fed;
    peer_eq = s.peer_eq;
    mid_eq = s.mid_eq;
    seq_eq = s.seq_eq;
    total_eq = s.total_eq;
    payload_eq = s.payload_eq;
    verified = s.verified;
  }

  pub record IsPending (history : List Fragment) (peer mid : Bytes) (p : PendingMessage)
      : Type 0 where
    pub size : length p.slots ≡ p.total
    pub count : filled_slots p.slots ≡ p.filled
    pub partial : p.filled < p.total
    pub small : p.total < 65536
    pub sound :
        (i : ℕ) (b : Bytes)
        → get_elem? p.slots i ≡ some (some b)
        → Sent history peer mid i p.total b

  IsPending-later :
      {history : List Fragment} {peer mid : Bytes} {p : PendingMessage} (f : Fragment)
      → IsPending history peer mid p
      → IsPending (f ∷ history) peer mid p
  IsPending-later f h = record {
    size = h.size;
    count = h.count;
    partial = h.partial;
    small = h.small;
    sound = λ i b e. Sent-later f (h.sound i b e);
  }

  abbrev pub IsQueue : List Fragment → Bytes → Queue → Type 0
  IsQueue history peer queue = All (λ e. IsPending history peer e.0 e.1) queue

  pub IsQueue-later :
      (history : List Fragment) (peer : Bytes) (queue : Queue) (f : Fragment)
      → IsQueue history peer queue
      → IsQueue (f ∷ history) peer queue
  IsQueue-later history peer [] f q = tt
  IsQueue-later history peer (e ∷ queue) f q =
      (IsPending-later f q.0, IsQueue-later history peer queue f q.1)

  module _ (history : List Fragment) (peer : Bytes) where
    pub find-IsPending :
        (mid : Bytes) (queue : Queue) (p : PendingMessage)
        → IsQueue history peer queue
        → find mid queue ≡ some p
        → IsPending history peer mid p
    unfolding find
    find-IsPending mid [] p q e = cc
    find-IsPending mid ((m, p') ∷ queue) p q e = elim (Bool-cases (eqb m mid)) [
      | inl same ↦
          let pe : p' ≡ p = ground (arith, same, e) in
          let me : m ≡ mid = (eqb_iff m mid).0 same in rw (← pe, ← me) q.0
      | inr other ↦ find-IsPending mid queue p q.1 (ground (arith, other, e))
    ]

    pub update-IsQueue :
        (mid : Bytes) (p : PendingMessage) (queue : Queue)
        → IsQueue history peer queue
        → IsPending history peer mid p
        → IsQueue history peer (update mid p queue)
    unfolding update
    update-IsQueue mid p [] q h = tt
    update-IsQueue mid p ((m, p') ∷ queue) q h = elim (Bool-cases (eqb m mid)) [
      | inl same ↦ rw same (rw ((eqb_iff m mid).0 same) h, q.1)
      | inr other ↦ rw other (q.0, update-IsQueue mid p queue q.1 h)
    ]

    pub retain-IsQueue :
        (mid : Bytes) (queue : Queue)
        → IsQueue history peer queue
        → IsQueue history peer (retain_others mid queue)
    unfolding retain_others
    retain-IsQueue mid [] q = tt
    retain-IsQueue mid ((m, p) ∷ queue) q = elim (Bool-cases (eqb m mid)) [
      | inl same ↦ rw same (retain-IsQueue mid queue q.1)
      | inr other ↦ rw other (q.0, retain-IsQueue mid queue q.1)
    ]

    pub drop-IsQueue :
        (queue : Queue) → IsQueue history peer queue → IsQueue history peer (drop 1 queue)
    drop-IsQueue [] q = tt
    drop-IsQueue (e ∷ queue) q = q.1

    pub fresh-IsPending :
        (mid : Bytes) (total : ℕ)
        → 0 < total
        → total < 65536
        → IsPending history peer mid (fresh total)
    fresh-IsPending mid total pos small = record {
      size = length-replicate total none;
      count = filled_slots-replicate total;
      partial = pos;
      small = small;
      sound = λ i b e. absurd (get_elem?-replicate-none total i b e);
    }

  pub length-update :
      (mid : Bytes) (p : PendingMessage) (queue : Queue)
      → length (update mid p queue) ≡ length queue
  unfolding update
  length-update mid p [] = refl
  length-update mid p ((m, p') ∷ queue) = ground (arith, length-update mid p queue)

  pub length-retain :
      (mid : Bytes) (queue : Queue) → length (retain_others mid queue) ≤ length queue
  unfolding retain_others
  length-retain mid [] = omega arith
  length-retain mid ((m, p) ∷ queue) = ground (arith, length-retain mid queue)

  -- The message with the slot of a fragment filled.
  abbrev pub filled_with : PendingMessage → Fragment → PendingMessage
  filled_with p f = record p {
    slots = set p.slots f.header.seq (some f.payload);
    filled = succ_16 p.filled;
  }

  -- What is known of the message after a fragment of it filled an empty slot.
  pub record IsFilled (history : List Fragment) (peer mid : Bytes) (p : PendingMessage)
      : Type 0 where
    pub size : length p.slots ≡ p.total
    pub count : filled_slots p.slots ≡ p.filled
    pub sound :
        (i : ℕ) (b : Bytes)
        → get_elem? p.slots i ≡ some (some b)
        → Sent history peer mid i p.total b

  pub filled_with-IsFilled :
      (history : List Fragment) (f : Fragment) (p : PendingMessage)
      → IsPending history f.header.peer_pubkey f.header.message_id p
      → feed_checks c f ≡ ok tt
      → p.total ≡ f.header.total
      → get_elem? p.slots f.header.seq ≡ some none
      → IsFilled (f ∷ history) f.header.peer_pubkey f.header.message_id (filled_with p f)
  filled_with-IsFilled history f p h checked total empty = record {
    size = length-set p.slots f.header.seq (some f.payload) ∙ h.size;
    count =
        ground (
          arith,
          filled_slots-set p.slots f.header.seq f.payload empty,
          h.count,
          h.partial,
          h.small,
        );
    sound = λ i b e. elim (written p.slots f.header.seq f.payload i b e) [
      | by_this at_seq is_payload ↦ record {
        fragment = f;
        fed = Memᴰ.head refl;
        peer_eq = refl;
        mid_eq = refl;
        seq_eq = sym at_seq;
        total_eq = sym total;
        payload_eq = sym is_payload;
        verified = checks_verify f checked;
      }
      | before e' ↦ Sent-later f (h.sound i b e')
    ];
  }
