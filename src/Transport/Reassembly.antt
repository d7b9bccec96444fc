-- ===== src/Transport/Reassembly.antt =====
-- crates/arxia-transport/src/reassembly.rs: fragments with signed headers, and the buffer that puts
-- messages together again.
mod Slots
mod Pending
mod Queues
mod Feeding
mod Histories
mod Tests
use arxia.Prelude.{
  ℕ, zero, suc, ◌+◌, ◌/◌, ◌%◌, ◌^◌, Bool, true, false, not, Option, none, some, List, [], ◌∷◌, ◌++◌,
  length, get_elem?, set, drop, replicate, ltb, leb, ◌==◌, if◌then◌else◌,
}
use arxia.Prelude.Ord.{eqb, str_ord}
use arxia.Prelude.Map.{Map, lookup, insert, remove}
use arxia.Prelude.Words.{Bytes, saturating_add}
use arxia.Prelude.Result.{Result, ok, err, panic, ◌>>=◌, ◌>>◌, ensure, map_err}
use arxia.Crypto.{Primitives, verify}

-- `MAX_INFLIGHT_MESSAGES_PER_PEER`
abbrev pub max_inflight_messages_per_peer : ℕ
max_inflight_messages_per_peer = 16

-- `FRAGMENT_DOMAIN`, "arxia-transport-fragment-v1"
abbrev fragment_domain : Bytes
fragment_domain =
    97 ∷ 114 ∷ 120 ∷ 105 ∷ 97 ∷ 45 ∷ 116 ∷ 114 ∷ 97 ∷ 110 ∷ 115 ∷ 112 ∷ 111 ∷ 114 ∷ 116 ∷ 45 ∷ 102
    ∷ 114 ∷ 97 ∷ 103 ∷ 109 ∷ 101 ∷ 110 ∷ 116 ∷ 45 ∷ 118 ∷ 49 ∷ []

pub data ReassemblyError : Type 0 where
  invalid_signature : ReassemblyError
  total_mismatch : ℕ → ℕ → ReassemblyError
  seq_out_of_range : ℕ → ℕ → ReassemblyError
  empty_message : ReassemblyError
  payload_mismatch : ℕ → ReassemblyError

pub record FragmentHeader : Type 0 where
  pub peer_pubkey : Bytes
  pub message_id : Bytes
  pub seq : ℕ
  pub total : ℕ
  pub signature : Bytes

pub record Fragment : Type 0 where
  pub header : FragmentHeader
  pub payload : Bytes

-- `u16::to_be_bytes`
unfoldable to_be_bytes_16 : ℕ → Bytes
to_be_bytes_16 n = n / 2 ^ 8 % 256 ∷ n % 256 ∷ []

-- `Fragment::canonical_bytes`
pub canonical_bytes : Bytes → Bytes → ℕ → ℕ → Bytes → Bytes
canonical_bytes peer_pubkey message_id seq total payload =
    fragment_domain
    ++ (peer_pubkey ++ (message_id ++ (to_be_bytes_16 seq ++ (to_be_bytes_16 total ++ payload))))

-- `Fragment::verify`
pub verify_fragment : Primitives → Fragment → Result ReassemblyError (Unit {0})
verify_fragment c f =
    map_err (λ _. invalid_signature)
      (verify c f.header.peer_pubkey
        (canonical_bytes f.header.peer_pubkey f.header.message_id f.header.seq f.header.total
          f.payload)
        f.header.signature)

pub record PendingMessage : Type 0 where
  pub total : ℕ
  pub slots : List (Option Bytes)
  pub filled : ℕ

-- `VecDeque<([u8; 16], PendingMessage)>`
abbrev pub Queue : Type 0
Queue = List (Bytes × PendingMessage)

pub record Reassembler : Type 0 where
  pub peers : Map Bytes Queue
  pub evicted : ℕ

-- `Reassembler::new`
abbrev pub new : Reassembler
new = record { peers = []; evicted = 0 }

abbrev pub queue_of : Bytes → Map Bytes Queue → Queue
queue_of peer peers = elim (lookup peer peers) [ none ↦ [] | some q ↦ q ]

-- `position(|(mid, _)| mid == &message_id)`, and the message there.
pub find : Bytes → Queue → Option PendingMessage
find mid [] = none
find mid ((m, p) ∷ queue) = if eqb m mid then some p else find mid queue

-- The queue after the message at that position was written.
pub update : Bytes → PendingMessage → Queue → Queue
update mid p' [] = []
update mid p' ((m, p) ∷ queue) = if eqb m mid then (m, p') ∷ queue else (m, p) ∷ update mid p' queue

-- `retain(|(m, _)| m != &mid)`
pub retain_others : Bytes → Queue → Queue
retain_others mid [] = []
retain_others mid ((m, p) ∷ queue) =
    let rest = retain_others mid queue in if eqb m mid then rest else (m, p) ∷ rest

-- The slots, flattened and concatenated.
pub concat_slots : List (Option Bytes) → Bytes
concat_slots [] = []
concat_slots (none ∷ slots) = concat_slots slots
concat_slots (some b ∷ slots) = b ++ concat_slots slots

-- `u16::saturating_add(1)`
abbrev pub succ_16 : ℕ → ℕ
succ_16 n = if ltb n 65535 then n + 1 else 65535

-- The end of `feed` for a message that is complete.
pub deliver : Bytes → Bytes → Queue → Map Bytes Queue → Map Bytes Queue
deliver peer mid queue peers = elim (retain_others mid queue) [
  | [] ↦ remove peer peers
  | e ∷ rest ↦ insert peer (e ∷ rest) peers
]

-- The fragment has filled a slot of its message.
pub complete : Reassembler → Queue → Fragment → PendingMessage → Option Bytes × Reassembler
complete r queue f p =
    if p.filled == p.total
    then (
      some (concat_slots p.slots),
      record r { peers = deliver f.header.peer_pubkey f.header.message_id queue r.peers },
    )
    else (
      none,
      record r { peers = insert f.header.peer_pubkey (update f.header.message_id p queue) r.peers },
    )

-- The slot of the fragment in a message of the queue.
pub fill :
    Reassembler
    → Queue
    → Fragment
    → PendingMessage
    → Option (Option Bytes)
    → Result ReassemblyError (Option Bytes) × Reassembler
fill r queue f p none = (panic, r)
fill r queue f p (some (some existing)) =
    if eqb existing f.payload then (ok none, r) else (err (payload_mismatch f.header.seq), r)
fill r queue f p (some none) =
    let (out, r') =
      complete r queue f (record p {
        slots = set p.slots f.header.seq (some f.payload);
        filled = succ_16 p.filled;
      }) in
    (ok out, r')

-- A message that is new: the oldest of the peer is dropped if there are too many.
pub make_room : Reassembler → Queue → Queue × Reassembler
make_room r queue =
    if leb max_inflight_messages_per_peer (length queue)
    then (drop 1 queue, record r { evicted = saturating_add r.evicted 1 })
    else (queue, r)

abbrev pub fresh : ℕ → PendingMessage
fresh total = record { total = total; slots = replicate total none; filled = 0 }

pub place :
    Reassembler
    → Fragment
    → Queue
    → Option PendingMessage
    → Result ReassemblyError (Option Bytes) × Reassembler
place r f queue (some p) =
    if p.total == f.header.total
    then fill r queue f p (get_elem? p.slots f.header.seq)
    else (err (total_mismatch f.header.total p.total), r)
place r f queue none =
    let (queue', r') = make_room r queue in
    let p = fresh f.header.total in
    let grown = queue' ++ ((f.header.message_id, p) ∷ []) in
    fill (record r' { peers = insert f.header.peer_pubkey grown r'.peers }) grown f p
      (get_elem? p.slots f.header.seq)

-- The checks of `feed` on the fragment itself.
pub feed_checks : Primitives → Fragment → Result ReassemblyError (Unit {0})
feed_checks c f = do
  verify_fragment c f
  ensure (ltb 0 f.header.total) empty_message
  ensure (ltb f.header.seq f.header.total) (seq_out_of_range f.header.seq f.header.total)

pub feed : Primitives → Reassembler → Fragment → Result ReassemblyError (Option Bytes) × Reassembler
feed c r f = elim (feed_checks c f) [
  | ok _ ↦
      let queue = queue_of f.header.peer_pubkey r.peers in
      place r f queue (find f.header.message_id queue)
  | err e ↦ (err e, r)
  | panic ↦ (panic, r)
]
