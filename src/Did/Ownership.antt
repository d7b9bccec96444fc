-- ===== src/Did/Ownership.antt =====
-- A received DID, its key and its text.
use arxia.Prelude.{
  ◌≡◌, refl, sym, ap, ◌∙◌, Bool, true, false, some, [], ◌∷◌, ◌++◌, arith, inl, inr, Option-cases,
}
use arxia.Prelude.Ord.{Str, eqb, eqb_iff, eqb_refl, str_ord}
use arxia.Prelude.Words.{Bytes}
use arxia.Prelude.Result.{ok, err, panic, Result-cases}
use arxia.Crypto.{Primitives, IsBlake3}
use arxia.Did.{
  Base58, IsBase58, ArxiaDid, ParsedArxiaDid, did_prefix, strip_prefix, parse_did, from_public_key,
  matches_pubkey, identifier_strict,
}

-- Two tests that hold together are equal.
Bool-ext : (a b : Bool) → (a ≡ true → b ≡ true) → (b ≡ true → a ≡ true) → a ≡ b
Bool-ext true b f g = sym (f refl)
Bool-ext false true f g = g refl
Bool-ext false false f g = refl

strip_prefix-append : (prefix s : Str) → strip_prefix prefix (prefix ++ s) ≡ some s
unfolding strip_prefix
strip_prefix-append [] s = refl
strip_prefix-append (y ∷ prefix) s = ground (arith, strip_prefix-append prefix s)

append-strip_prefix : (prefix s rest : Str) → strip_prefix prefix s ≡ some rest → prefix ++ rest ≡ s
unfolding strip_prefix
append-strip_prefix [] s rest e = ground (arith, e)
append-strip_prefix (y ∷ prefix) [] rest e = cc
append-strip_prefix (y ∷ prefix) (z ∷ s) rest e =
    ground (arith, append-strip_prefix prefix s rest, e)

module _ (c : Primitives) (x : Base58) where
  -- What a text parses to, as bytes behind the prefix.
  parse_did-ok :
      (s : Str) (p : ParsedArxiaDid)
      → parse_did x s ≡ ok p
      → (text : Str) × (did_prefix ++ text ≡ s) × (x.decode text ≡ some p.identifier_hash)
  unfolding parse_did
  parse_did-ok s p e = elim (Option-cases (strip_prefix did_prefix s)) [
    | inr (text, f) ↦ (text, append-strip_prefix did_prefix s text f, ground (arith, e, f))
    | inl f ↦ cc (rw f at e)
  ]

  from_public_key-ok :
      (pubkey : Bytes) (d : ArxiaDid)
      → from_public_key c x pubkey ≡ ok d
      → d.did ≡ did_prefix ++ x.encode (c.blake3 pubkey)
  unfolding from_public_key
  from_public_key-ok pubkey d e = ground (arith, e)

  -- The two calls by which a received text is compared with a key.
  abbrev pub parses_and_matches : Str → Bytes → Bool
  parses_and_matches s pubkey = elim (parse_did x s) [
    | ok p ↦ matches_pubkey c p pubkey
    | err e ↦ false
    | panic ↦ false
  ]

  parse_did-did :
      (pubkey : Bytes) (d : ArxiaDid)
      → IsBlake3 c
      → IsBase58 x
      → from_public_key c x pubkey ≡ ok d
      → parse_did x d.did ≡ ok (record { did = d.did; identifier_hash = c.blake3 pubkey })
  unfolding parse_did
  parse_did-did pubkey d b b58 e =
      let hash = c.blake3 pubkey in
      rw
        (
          from_public_key-ok pubkey d e,
          strip_prefix-append did_prefix (x.encode hash),
          b58.decode-encode hash,
          b.length-blake3 pubkey,
        )
        refl

  one_spelling :
      (pubkey : Bytes) (d : ArxiaDid) (s : Str)
      → IsBase58 x
      → from_public_key c x pubkey ≡ ok d
      → parses_and_matches s pubkey ≡ true
      → s ≡ d.did
  unfolding matches_pubkey
  one_spelling pubkey d s b58 e same = elim (Result-cases (parse_did x s)) [
    | inl (p, parsed) ↦
        let t = parse_did-ok s p parsed in
        sym t.1
        ∙ ap (λ u. did_prefix ++ u)
            (sym (b58.encode-decode t.0 p.identifier_hash t.2)
              ∙ ap x.encode
                  ((eqb_iff p.identifier_hash (c.blake3 pubkey)).0 (ground (arith, same, parsed))))
        ∙ sym (from_public_key-ok pubkey d e)
    | inr failed ↦ ground (arith, same, failed)
  ]

  own_text :
      (pubkey : Bytes) (d : ArxiaDid)
      → IsBlake3 c
      → IsBase58 x
      → from_public_key c x pubkey ≡ ok d
      → parses_and_matches d.did pubkey ≡ true
  unfolding matches_pubkey
  own_text pubkey d b b58 e =
      rw (parses_and_matches, parse_did-did pubkey d b b58 e) (eqb_refl (c.blake3 pubkey))

  -- The DID that is made from a key parses, and its identifier can be read; and a text parses to a DID
  -- that matches the key exactly if it is the DID that is made from the key, letter for letter.
  pub parse_did_lem :
      (pubkey : Bytes) (d : ArxiaDid) (s : Str)
      → IsBlake3 c
      → IsBase58 x
      → from_public_key c x pubkey ≡ ok d
      → (parse_did x d.did ≡ ok (record { did = d.did; identifier_hash = c.blake3 pubkey }))
        × (identifier_strict d ≡ ok (x.encode (c.blake3 pubkey)))
        × (parses_and_matches s pubkey ≡ eqb s d.did)
  unfolding identifier_strict matches_pubkey
  parse_did_lem pubkey d s b b58 e = (
    parse_did-did pubkey d b b58 e,
    rw (from_public_key-ok pubkey d e, strip_prefix-append did_prefix (x.encode (c.blake3 pubkey)))
        refl,
    Bool-ext (parses_and_matches s pubkey) (eqb s d.did)
        (λ m. (eqb_iff s d.did).1 (one_spelling pubkey d s b58 e m))
        (λ same.
          ap (λ t. parses_and_matches t pubkey) ((eqb_iff s d.did).0 same)
          ∙ own_text pubkey d b b58 e),
  )
