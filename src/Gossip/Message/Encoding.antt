-- ===== src/Gossip/Message/Encoding.antt =====
-- The signed bytes determine the message and its sender.
use arxia.Prelude.{
  ℕ, ◌≡◌, refl, sym, ◌∙◌, List, [], ◌∷◌, ◌++◌, length, All, arith, append-injective,
}
use arxia.Prelude.Words.{Bytes, IsU64, to_be_bytes, to_be_bytes-injective, length-to_be_bytes}
use arxia.Gossip.Message.{
  Entry, GossipMessage, block_announce, nonce_sync_request, nonce_sync_response, ping,
  encode_entries, encode_message, canonical_bytes, gossip_message_domain,
}

abbrev IsEntry : Entry → Type 0
IsEntry (hash, nonce, account) = (length hash ≡ 32) × IsU64 nonce × (length account ≡ 32)

-- The fields of a message are machine values: arrays of 32 bytes, `u64`, and lengths of 64 bits.
abbrev pub IsMachine : GossipMessage → Type 0
IsMachine (block_announce block_data hops) = IsU64 (length block_data)
IsMachine (nonce_sync_request from) = IsU64 (length from)
IsMachine (nonce_sync_response entries) = IsU64 (length entries) × All IsEntry entries
IsMachine (ping node_id timestamp) = IsU64 timestamp × IsU64 (length node_id)

number_first :
    (m n : ℕ) {xs ys : Bytes}
    → IsU64 m
    → IsU64 n
    → to_be_bytes m ++ xs ≡ to_be_bytes n ++ ys
    → (m ≡ n) × (xs ≡ ys)
number_first m n {xs} {ys} hm hn e =
    let (a, b) =
      append-injective (to_be_bytes m) (to_be_bytes n) {us = xs} {vs = ys}
        (length-to_be_bytes m ∙ sym (length-to_be_bytes n)) e in
    (to_be_bytes-injective m n hm hn a, b)

encode_entries-injective :
    (xs ys : List Entry)
    → All IsEntry xs
    → All IsEntry ys
    → length xs ≡ length ys
    → encode_entries xs ≡ encode_entries ys
    → xs ≡ ys
unfolding encode_entries
encode_entries-injective [] [] h k l e = refl
encode_entries-injective [] (y ∷ ys) h k l e = absurd (omega arith)
encode_entries-injective (x ∷ xs) [] h k l e = absurd (omega arith)
encode_entries-injective ((a, m, b) ∷ xs) ((a', n, b') ∷ ys) h k l e =
    let (pa, e1) = append-injective a a' (h.0.0 ∙ sym k.0.0) e in
    let (pm, e2) = number_first m n h.0.1 k.0.1 e1 in
    let (pb, e3) = append-injective b b' (h.0.2 ∙ sym k.0.2) e2 in
    cc (pa, pm, pb, encode_entries-injective xs ys h.1 k.1 (omega arith) e3)

encode_message-injective :
    (m n : GossipMessage) → IsMachine m → IsMachine n → encode_message m ≡ encode_message n → m ≡ n
unfolding encode_message
encode_message-injective (block_announce d h) (block_announce d' h') u v e =
    let p : h ≡ h' = cc e in
    let q : to_be_bytes (length d) ++ d ≡ to_be_bytes (length d') ++ d' = cc e in
    cc (p, (number_first (length d) (length d') u v q).1)
encode_message-injective (nonce_sync_request f) (nonce_sync_request f') u v e =
    let q : to_be_bytes (length f) ++ f ≡ to_be_bytes (length f') ++ f' = cc e in
    cc ((number_first (length f) (length f') u v q).1)
encode_message-injective (nonce_sync_response es) (nonce_sync_response es') u v e =
    let q : to_be_bytes (length es) ++ encode_entries es
        ≡ to_be_bytes (length es') ++ encode_entries es' =
      cc e in
    let (l, r) = number_first (length es) (length es') u.0 v.0 q in
    cc (encode_entries-injective es es' u.1 v.1 l r)
encode_message-injective (ping i t) (ping i' t') u v e =
    let q : to_be_bytes t ++ (to_be_bytes (length i) ++ i)
        ≡ to_be_bytes t' ++ (to_be_bytes (length i') ++ i') =
      cc e in
    let (pt, r) = number_first t t' u.0 v.0 q in
    cc (pt, (number_first (length i) (length i') u.1 v.1 r).1)
encode_message-injective m n u v e = cc

-- The bytes that are signed determine the message, its variant and all its fields, and the key of the
-- sender, so that a signature on one message is on no other. The fields are machine values and the
-- keys have 32 bytes.
pub canonical_bytes-injective :
    (m n : GossipMessage) (sender sender' : Bytes)
    → IsMachine m
    → IsMachine n
    → length sender ≡ 32
    → length sender' ≡ 32
    → canonical_bytes m sender ≡ canonical_bytes n sender'
    → (m ≡ n) × (sender ≡ sender')
unfolding canonical_bytes
canonical_bytes-injective m n sender sender' u v k k' e =
    let (_, e1) = append-injective gossip_message_domain gossip_message_domain refl e in
    let (p, e2) = append-injective sender sender' (k ∙ sym k') e1 in
    (encode_message-injective m n u v e2, p)
