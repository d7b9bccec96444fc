-- ===== src/Did.antt =====
-- crates/arxia-did/src/lib.rs: decentralized identifiers.
mod Ownership
mod Tests
use arxia.Prelude.{
  ℕ, ◌≡◌, Bool, true, false, Option, none, some, List, [], ◌∷◌, ◌++◌, length, ◌==◌, if◌then◌else◌,
}
use arxia.Prelude.Ord.{Str, eqb, str_ord}
use arxia.Prelude.Words.{Bytes}
use arxia.Prelude.Result.{Result, ok, err, ◌>>=◌, ◌>>◌, ok_or, ensure, map_err, expect}
use arxia.Crypto.{
  Primitives, KeyFault, missing_prefix, bad_base58, identifier_length, validate_pubkey_strict,
}
use arxia.Core.{ArxiaError, key_error, of_crypto}

-- The `bs58` crate: `bs58::encode(b).into_string()` and `bs58::decode(s).into_vec().ok()`.
pub record Base58 : Type 0 where
  pub encode : Bytes → Str
  pub decode : Str → Option Bytes

-- Base 58 writes bytes and reads them back, and no two texts stand for the same bytes.
pub record IsBase58 (x : Base58) : Type 0 where
  pub decode-encode : (b : Bytes) → x.decode (x.encode b) ≡ some b
  pub encode-decode : (s : Str) (b : Bytes) → x.decode s ≡ some b → x.encode b ≡ s

-- `DID_PREFIX`, "did:arxia:"
abbrev pub did_prefix : Str
did_prefix = 100 ∷ 105 ∷ 100 ∷ 58 ∷ 97 ∷ 114 ∷ 120 ∷ 105 ∷ 97 ∷ 58 ∷ []

abbrev did_identifier_byte_len : ℕ
did_identifier_byte_len = 32

pub record ArxiaDid : Type 0 where
  pub did : Str
  pub public_key : Bytes

pub record ParsedArxiaDid : Type 0 where
  pub did : Str
  pub identifier_hash : Bytes

-- `s.strip_prefix(prefix)`
strip_prefix : Str → Str → Option Str
strip_prefix [] s = some s
strip_prefix (x ∷ prefix) [] = none
strip_prefix (x ∷ prefix) (y ∷ s) =
    let rest = strip_prefix prefix s in if x == y then rest else none

-- `ArxiaDid::identifier`
unfoldable identifier : ArxiaDid → Str
identifier d = elim (strip_prefix did_prefix d.did) [ none ↦ d.did | some s ↦ s ]

-- `ArxiaDid::identifier_strict`
pub identifier_strict : ArxiaDid → Result ArxiaError Str
identifier_strict d = ok_or (strip_prefix did_prefix d.did) (key_error missing_prefix)

-- `ParsedArxiaDid::identifier`
unfoldable parsed_identifier : ParsedArxiaDid → Result ArxiaError Str
parsed_identifier p = expect (strip_prefix did_prefix p.did)

module _ (x : Base58) where
  pub parse_did : Str → Result ArxiaError ParsedArxiaDid
  parse_did s = do
    identifier_b58 ← ok_or (strip_prefix did_prefix s) (key_error missing_prefix)
    bytes ← ok_or (x.decode identifier_b58) (key_error bad_base58)
    ensure (length bytes == did_identifier_byte_len) (key_error (identifier_length (length bytes)))
    ok (record { did = s; identifier_hash = bytes })

module _ (c : Primitives) (x : Base58) where
  pub from_public_key : Bytes → Result ArxiaError ArxiaDid
  from_public_key public_key = do
    map_err of_crypto (validate_pubkey_strict c public_key)
    ok (record { did = did_prefix ++ x.encode (c.blake3 public_key); public_key = public_key })

module _ (c : Primitives) where
  pub matches_pubkey : ParsedArxiaDid → Bytes → Bool
  matches_pubkey p pubkey = eqb p.identifier_hash (c.blake3 pubkey)
