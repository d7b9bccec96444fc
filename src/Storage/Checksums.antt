-- ===== src/Storage/Checksums.antt =====
-- A checksummed value is accepted exactly if it is one that was wrapped.
use arxia.Prelude.{
  ◌≡◌, ◌↔◌, ◌++◌, length, take, drop, ℕ, ◌≤◌, false, take-drop_append, arith, ltb, take-append,
  drop-append, Bool-cases, inl, inr, length-append,
}
use arxia.Prelude.Ord.{str_ord, eqb, eqb_iff, eqb_refl}
use arxia.Prelude.Words.{Bytes}
use arxia.Prelude.Result.{ok}
use arxia.Crypto.{Primitives, IsBlake3}
use arxia.Storage.{wrap_with_checksum, unwrap_with_checksum}

not_short : (n : ℕ) → 32 ≤ n → ltb n 32 ≡ false
not_short n le = ground arith

module _ (c : Primitives) (x : IsBlake3 c) where
  unwrap-wrap : (v : Bytes) → unwrap_with_checksum c (wrap_with_checksum c v) ≡ ok v
  unfolding wrap_with_checksum unwrap_with_checksum
  unwrap-wrap v = rw (
    not_short (length (c.blake3 v ++ v))
        (omega (arith, length-append (c.blake3 v) v, x.length-blake3 v)),
    take-append (c.blake3 v) v 32 (x.length-blake3 v),
    drop-append (c.blake3 v) v 32 (x.length-blake3 v),
    eqb_refl (c.blake3 v),
  )

  wrap-unwrap :
      (combined v : Bytes)
      → unwrap_with_checksum c combined ≡ ok v
      → combined ≡ wrap_with_checksum c v
  unfolding wrap_with_checksum unwrap_with_checksum
  wrap-unwrap combined v e = elim (Bool-cases (ltb (length combined) 32)) [
    | inl short ↦ cc
    | inr long ↦ elim (Bool-cases (eqb (take 32 combined) (c.blake3 (drop 32 combined)))) [
      | inl same ↦ cc (
        take-drop_append 32 combined,
        (eqb_iff (take 32 combined) (c.blake3 (drop 32 combined))).0 same,
      )
      | inr other ↦ cc
    ]
  ]

  -- Where a digest has 32 bytes: `unwrap_with_checksum` yields a value exactly if its input is
  -- that value with its checksum before it.
  unwrap_with_checksum_iff :
      (combined v : Bytes)
      → (unwrap_with_checksum c combined ≡ ok v) ↔ (combined ≡ wrap_with_checksum c v)
  unwrap_with_checksum_iff combined v = (wrap-unwrap combined v, λ e. rw e (unwrap-wrap v))
