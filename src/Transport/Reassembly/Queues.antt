-- ===== src/Transport/Reassembly/Queues.antt =====
-- The queues of the peers, and what a complete message is.
use arxia.Prelude.{
  ℕ, ◌≤◌, ◌≡◌, sym, ap, ◌∙◌, some, List, [], ◌∷◌, length, get_elem?, arith, Bool-cases, inl, inr,
}
use arxia.Prelude.Ord.{eqb, eqb_iff, str_ord}
use arxia.Prelude.Words.{Bytes}
use arxia.Prelude.Map.{insert, remove, IsSorted}
use arxia.Prelude.Map.Laws.{
  lookup-insert, insert-IsSorted, remove-IsSorted, lookup-remove_ne, lookup-remove_self,
}
use arxia.Crypto.{Primitives}
use arxia.Transport.Reassembly.{
  Fragment, PendingMessage, Queue, Reassembler, queue_of, retain_others, deliver,
  max_inflight_messages_per_peer, concat_slots,
}
use arxia.Transport.Reassembly.Slots.{
  all_filled, concat, concat_slots-map, length-map-some, get_elem?-map-some,
}
use arxia.Transport.Reassembly.Pending.{
  Sent, IsQueue, IsQueue-later, retain-IsQueue, length-retain, IsFilled,
}

module _ (c : Primitives) where
  -- Every peer has at most 16 messages in flight, and what is in their slots was sent.
  pub record IsValid (history : List Fragment) (r : Reassembler) : Type 0 where
    pub ordered : IsSorted r.peers
    pub within : (peer : Bytes) → length (queue_of peer r.peers) ≤ max_inflight_messages_per_peer
    pub queues : (peer : Bytes) → IsQueue c history peer (queue_of peer r.peers)

  -- The bytes are the payloads of one message of the peer, in the order of their places, each of which
  -- is the payload of a fragment that was fed and checked.
  pub record IsDelivered (history : List Fragment) (peer mid : Bytes) (total : ℕ) (out : Bytes)
      : Type 0 where
    pub payloads : List Bytes
    whole : length payloads ≡ total
    out_eq : out ≡ concat payloads
    sent : (i : ℕ) (b : Bytes) → get_elem? payloads i ≡ some b → Sent c history peer mid i total b

  pub delivered_lem :
      (history : List Fragment) (peer mid : Bytes) (p : PendingMessage)
      → IsFilled c history peer mid p
      → p.filled ≡ p.total
      → IsDelivered history peer mid p.total (concat_slots p.slots)
  delivered_lem history peer mid p h full =
      let (payloads, e) = all_filled p.slots (h.count ∙ full ∙ sym h.size) in
      record {
        payloads = payloads;
        whole = sym (length-map-some payloads) ∙ ap length (sym e) ∙ h.size;
        out_eq = ap concat_slots e ∙ concat_slots-map payloads;
        sent = λ i b g. h.sound i b (ap (λ s. get_elem? s i) e ∙ get_elem?-map-some payloads i b g);
      }

  pub later-IsValid :
      (history : List Fragment) (f : Fragment) (r : Reassembler)
      → IsValid history r
      → IsValid (f ∷ history) r
  later-IsValid history f r v = record {
    ordered = v.ordered;
    within = v.within;
    queues = λ peer. IsQueue-later c history peer (queue_of peer r.peers) f (v.queues peer);
  }

  -- The queue of one peer is written.
  pub write-IsValid :
      (history : List Fragment) (peer : Bytes) (queue : Queue) (r : Reassembler)
      → IsValid history r
      → IsQueue c history peer queue
      → length queue ≤ max_inflight_messages_per_peer
      → IsValid history (record r { peers = insert peer queue r.peers })
  write-IsValid history peer queue r v q le = record {
    ordered = insert-IsSorted peer queue r.peers v.ordered;
    within = λ p. ground (arith, lookup-insert p peer queue r.peers, v.within p);
    queues = λ p. elim (Bool-cases (eqb p peer)) [
      | inl same ↦
          let e : queue_of p (insert peer queue r.peers) ≡ queue =
            ground (arith, lookup-insert p peer queue r.peers, same) in
          let pe : p ≡ peer = (eqb_iff p peer).0 same in rw (e, pe) q
      | inr other ↦
          let e : queue_of p (insert peer queue r.peers) ≡ queue_of p r.peers =
            ground (arith, lookup-insert p peer queue r.peers, other) in
          rw e (v.queues p)
    ];
  }

  remove-IsValid :
      (history : List Fragment) (peer : Bytes) (r : Reassembler)
      → IsValid history r
      → IsValid history (record r { peers = remove peer r.peers })
  remove-IsValid history peer r v = record {
    ordered = remove-IsSorted peer r.peers v.ordered;
    within = λ p. ground (
      arith,
      eqb_iff p peer,
      lookup-remove_self peer r.peers v.ordered,
      lookup-remove_ne p peer r.peers,
      v.within p,
    );
    queues = λ p. elim (Bool-cases (eqb p peer)) [
      | inl same ↦
          let e : queue_of p (remove peer r.peers) ≡ [] =
            ground (arith, eqb_iff p peer, lookup-remove_self peer r.peers v.ordered, same) in
          rw e tt
      | inr other ↦
          let e : queue_of p (remove peer r.peers) ≡ queue_of p r.peers =
            ground (arith, eqb_iff p peer, lookup-remove_ne p peer r.peers, other) in
          rw e (v.queues p)
    ];
  }

  pub deliver-IsValid :
      (history : List Fragment) (peer : Bytes) (queue : Queue) (r : Reassembler)
      → IsValid history r
      → IsQueue c history peer queue
      → length queue ≤ max_inflight_messages_per_peer
      → (mid : Bytes) → IsValid history (record r { peers = deliver peer mid queue r.peers })
  unfolding deliver
  deliver-IsValid history peer queue r v q le mid =
      go (retain_others mid queue) (retain-IsQueue c history peer mid queue q)
        (length-retain c mid queue)
    where
      go :
          (rest : Queue)
          → IsQueue c history peer rest
          → length rest ≤ length queue
          → IsValid history (record r {
            peers = elim rest [
              | [] ↦ remove peer r.peers
              | e ∷ rest ↦ insert peer (e ∷ rest) r.peers
            ];
          })
      go [] h l = remove-IsValid history peer r v
      go (e ∷ rest) h l = write-IsValid history peer (e ∷ rest) r v h (omega arith)
