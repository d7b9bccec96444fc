-- ===== src/Did/Tests.antt =====
-- A key at which the theorem on identifiers is applied.
use arxia.Prelude.{◌≡◌, refl, some, [], ◌∷◌, ◌++◌, arith}
use arxia.Prelude.Ord.{eqb, str_ord}
use arxia.Prelude.Words.{Bytes}
use arxia.Prelude.Result.{ok}
use arxia.Crypto.{validate_pubkey_strict}
use arxia.Crypto.Toy.{toy, toy-IsBlake3}
use arxia.Did.{
  Base58, IsBase58, ArxiaDid, did_prefix, parse_did, from_public_key, identifier_strict,
}
use arxia.Did.Ownership.{parses_and_matches, parse_did_lem}

-- A stand-in for base 58: bytes are their own text.
abbrev plain : Base58
plain = record { encode = λ b. b; decode = some }

plain-IsBase58 : IsBase58 plain
plain-IsBase58 = record { decode-encode = λ b. refl; encode-decode = λ s b e. ground (arith, e) }

abbrev key : Bytes
key = 9 ∷ []

abbrev made : ArxiaDid
made = record { did = did_prefix ++ toy.blake3 key; public_key = key }

made_from : from_public_key toy plain key ≡ ok made
unfolding from_public_key validate_pubkey_strict
made_from = refl

parse_did_lem_example :
    (parse_did plain made.did ≡ ok (record { did = made.did; identifier_hash = toy.blake3 key }))
    × (identifier_strict made ≡ ok (toy.blake3 key))
    × (parses_and_matches toy plain (48 ∷ made.did) key ≡ eqb (48 ∷ made.did) made.did)
parse_did_lem_example =
    parse_did_lem toy plain key made (48 ∷ made.did) toy-IsBlake3 plain-IsBase58 made_from
