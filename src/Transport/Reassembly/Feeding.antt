-- ===== src/Transport/Reassembly/Feeding.antt =====
-- Whatever fragments are fed, a message that is delivered is the one that its peer sent.
use mathlib.Core.Path.{subst}
use arxia.Prelude.{
  max, ◌+◌, ◌≤◌, ◌<◌, ◌≡◌, ◌≢◌, refl, Option, none, some, List, [], ◌∷◌, ◌++◌, length,
  length-append, get_elem?, drop, All-append, arith, Bool-cases, inl, inr, ◌==◌, leb,
}
use arxia.Prelude.Ord.{eqb, str_ord}
use arxia.Prelude.Words.{Bytes}
use arxia.Prelude.Map.{insert}
use arxia.Prelude.Result.{Result, ok, err, panic}
use arxia.Crypto.{Primitives, verify}
use arxia.Transport.Reassembly.{
  Fragment, ReassemblyError, PendingMessage, Queue, Reassembler, queue_of, find, update, complete,
  fill, make_room, fresh, place, feed_checks, feed, max_inflight_messages_per_peer, concat_slots,
  verify_fragment,
}
use arxia.Transport.Reassembly.Slots.{filled_le, get_elem?-some, get_elem?-replicate}
use arxia.Transport.Reassembly.Pending.{
  IsPending, IsQueue, IsQueue-later, find-IsPending, update-IsQueue, drop-IsQueue, fresh-IsPending,
  length-update, filled_with, IsFilled, filled_with-IsFilled,
}
use arxia.Transport.Reassembly.Queues.{
  IsValid, IsDelivered, delivered_lem, later-IsValid, write-IsValid, deliver-IsValid,
}

length-drop_one : (queue : Queue) → length (drop 1 queue) + 1 ≤ max (length queue) 1
length-drop_one [] = omega arith
length-drop_one (e ∷ queue) = ground arith

module _ (c : Primitives) where
  -- What a call of `feed` on a fragment, with the fragments before it as the history, may do.
  pub record IsOutcome (history : List Fragment) (f : Fragment)
      (o : Result ReassemblyError (Option Bytes) × Reassembler) : Type 0 where
    pub valid : IsValid c (f ∷ history) o.1
    returns : o.0 ≢ panic
    delivers :
        (out : Bytes)
        → o.0 ≡ ok (some out)
        → IsDelivered c (f ∷ history) f.header.peer_pubkey f.header.message_id f.header.total out

  unchanged :
      (history : List Fragment) (f : Fragment) (r : Reassembler)
      (res : Result ReassemblyError (Option Bytes))
      → IsValid c history r
      → res ≢ panic
      → ((out : Bytes) → res ≢ ok (some out))
      → IsOutcome history f (res, r)
  unchanged history f r res v p o = record {
    valid = later-IsValid c history f r v;
    returns = p;
    delivers = λ out e. absurd (o out e);
  }

  make_room_lem :
      (history : List Fragment) (peer : Bytes) (r : Reassembler) (queue : Queue)
      → IsValid c history r
      → IsQueue c history peer queue
      → length queue ≤ max_inflight_messages_per_peer
      → IsValid c history (make_room r queue).1
        × IsQueue c history peer (make_room r queue).0
        × (length (make_room r queue).0 < max_inflight_messages_per_peer)
  unfolding make_room
  make_room_lem history peer r queue v q le =
      elim (Bool-cases (leb max_inflight_messages_per_peer (length queue))) [
        | inl full ↦ rw full (
          record { ordered = v.ordered; within = v.within; queues = v.queues },
          drop-IsQueue c history peer queue q,
          ground (arith, full, length-drop_one queue),
        )
        | inr room ↦ rw room (v, q, ground (arith, room))
      ]

  module _ (history : List Fragment) (f : Fragment) (checked : feed_checks c f ≡ ok tt) where
    complete_lem :
        (r : Reassembler) (queue : Queue) (p : PendingMessage)
        → IsValid c (f ∷ history) r
        → IsQueue c (f ∷ history) f.header.peer_pubkey queue
        → length queue ≤ max_inflight_messages_per_peer
        → p.total ≡ f.header.total
        → p.total < 65536
        → IsFilled c (f ∷ history) f.header.peer_pubkey f.header.message_id p
        → IsOutcome history f (ok (complete r queue f p).0, (complete r queue f p).1)
    unfolding complete
    complete_lem r queue p v q le total small h = elim (Bool-cases (p.filled == p.total)) [
      | inl full ↦ rw full record {
        valid =
            deliver-IsValid c (f ∷ history) f.header.peer_pubkey queue r v q le f.header.message_id;
        returns = λ e. cc;
        delivers = λ out e.
            let d =
              delivered_lem c (f ∷ history) f.header.peer_pubkey f.header.message_id p h
                (ground (arith, full)) in
            let o : concat_slots p.slots ≡ out = cc e in
            subst (λ t. IsDelivered c (f ∷ history) f.header.peer_pubkey f.header.message_id t out)
              total
              (subst
                (λ b.
                  IsDelivered c (f ∷ history) f.header.peer_pubkey f.header.message_id p.total b)
                o d);
      }
      | inr partial ↦ rw partial record {
        valid =
            write-IsValid c (f ∷ history) f.header.peer_pubkey (update f.header.message_id p queue)
              r v
              (update-IsQueue c (f ∷ history) f.header.peer_pubkey f.header.message_id p queue q
                record {
                  size = h.size;
                  count = h.count;
                  partial = ground (arith, partial, h.count, h.size, filled_le p.slots);
                  small = small;
                  sound = h.sound;
                })
              (omega (arith, length-update c f.header.message_id p queue));
        returns = λ e. cc;
        delivers = λ out e. cc;
      }
    ]

    fill_lem :
        (r : Reassembler) (queue : Queue) (p : PendingMessage) (s : Option Bytes)
        → IsValid c history r
        → IsQueue c history f.header.peer_pubkey queue
        → length queue ≤ max_inflight_messages_per_peer
        → p.total ≡ f.header.total
        → IsPending c history f.header.peer_pubkey f.header.message_id p
        → get_elem? p.slots f.header.seq ≡ some s
        → IsOutcome history f (fill r queue f p (some s))
    unfolding fill
    fill_lem r queue p (some existing) v q le total h e =
        elim (Bool-cases (eqb existing f.payload)) [
          | inl same ↦ rw same (unchanged history f r (ok none) v (λ p. cc) (λ out p. cc))
          | inr other ↦ rw other (unchanged history f r (err _) v (λ p. cc) (λ out p. cc))
        ]
    fill_lem r queue p none v q le total h e =
        complete_lem r queue (filled_with c p f) (later-IsValid c history f r v)
          (IsQueue-later c history f.header.peer_pubkey queue f q) le total h.small
          (filled_with-IsFilled c history f p h checked total e)

    place_lem :
        (r : Reassembler) (o : Option PendingMessage)
        → IsValid c history r
        → 0 < f.header.total
        → f.header.seq < f.header.total
        → f.header.total < 65536
        → find f.header.message_id (queue_of f.header.peer_pubkey r.peers) ≡ o
        → IsOutcome history f (place r f (queue_of f.header.peer_pubkey r.peers) o)
    unfolding place
    place_lem r (some p) v pos lt small e =
        let queue = queue_of f.header.peer_pubkey r.peers in
        let q = v.queues f.header.peer_pubkey in
        let h = find-IsPending c history f.header.peer_pubkey f.header.message_id queue p q e in
        elim (Bool-cases (p.total == f.header.total)) [
          | inl same ↦
              let total : p.total ≡ f.header.total = ground (arith, same) in
              let (slot, at) = get_elem?-some p.slots f.header.seq (omega (arith, h.size, total)) in
              rw (same, at) (fill_lem r queue p slot v q (v.within f.header.peer_pubkey) total h at)
          | inr other ↦ rw other (unchanged history f r (err _) v (λ p. cc) (λ out p. cc))
        ]
    place_lem r none v pos lt small e =
        let peer = f.header.peer_pubkey in
        let queue = queue_of peer r.peers in
        let room = make_room_lem history peer r queue v (v.queues peer) (v.within peer) in
        let p = fresh f.header.total in
        let h = fresh-IsPending c history peer f.header.message_id f.header.total pos small in
        let grown = (make_room r queue).0 ++ ((f.header.message_id, p) ∷ []) in
        let q : IsQueue c history peer grown =
          All-append (λ e. IsPending c history peer e.0 e.1) (make_room r queue).0
            ((f.header.message_id, p) ∷ []) room.1 (h, tt) in
        let le : length grown ≤ max_inflight_messages_per_peer =
          omega
            (arith, length-append (make_room r queue).0 ((f.header.message_id, p) ∷ []), room.2) in
        let slot = get_elem?-replicate f.header.total f.header.seq (omega arith) in
        rw slot (
          fill_lem
            (record {
              peers = insert peer grown (make_room r queue).1.peers;
              evicted = (make_room r queue).1.evicted;
            })
            grown p none (write-IsValid c history peer grown (make_room r queue).1 room.0 q le) q le
            refl h slot)

  checks_range :
      (f : Fragment)
      → feed_checks c f ≡ ok tt
      → (0 < f.header.total) × (f.header.seq < f.header.total)
  unfolding feed_checks
  checks_range f e = ground (arith, e)

  checks-ne-panic : (f : Fragment) → feed_checks c f ≢ panic
  unfolding feed_checks verify_fragment verify
  checks-ne-panic f = ground arith

  -- A fragment whose total fits 16 bits, fed after the fragments of a history.
  pub feed-IsOutcome :
      (history : List Fragment) (r : Reassembler) (f : Fragment)
      → IsValid c history r
      → f.header.total < 65536
      → IsOutcome history f (feed c r f)
  unfolding feed
  feed-IsOutcome history r f v small = go (feed_checks c f) refl
    where
      go :
          (checks : Result ReassemblyError (Unit {0}))
          → feed_checks c f ≡ checks
          → IsOutcome history f (elim checks [
            | ok _ ↦
                place r f
                  (queue_of f.header.peer_pubkey r.peers)
                  (find f.header.message_id (queue_of f.header.peer_pubkey r.peers))
            | err e ↦ (err e, r)
            | panic ↦ (panic, r)
          ])
      go (ok u) e =
          let (pos, lt) = checks_range f e in
          place_lem history f e r (find f.header.message_id (queue_of f.header.peer_pubkey r.peers))
            v pos lt small refl
      go (err x) e = unchanged history f r (err x) v (λ p. cc) (λ out p. cc)
      go panic e = absurd (checks-ne-panic f e)
