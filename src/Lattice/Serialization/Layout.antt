-- ===== src/Lattice/Serialization/Layout.antt =====
-- The bytes of a block laid out field by field, and the slices that the reader takes of them.
use arxia.Prelude.{
  ℕ, ◌+◌, ◌≡◌, refl, sym, ap, ◌∙◌, ◌∷◌, ◌++◌, length, take, drop, length-append, take-append,
  drop-append, drop-drop, arith, some, get_elem?,
}
use arxia.Prelude.Words.{Bytes}
use arxia.Lattice.Serialization.{slice}

-- What stands behind `n` bytes at an offset, and those bytes.
skip : (i n : ℕ) (xs p r : Bytes) → drop i xs ≡ p ++ r → length p ≡ n → drop (i + n) xs ≡ r
skip i n xs p r e l = sym (drop-drop i n xs) ∙ ap (drop n) e ∙ drop-append p r n l

at : (i n : ℕ) (xs p r : Bytes) → drop i xs ≡ p ++ r → length p ≡ n → slice i n xs ≡ p
at i n xs p r e l = ap (take n) e ∙ take-append p r n l

-- The bytes of a block, from the bytes of its fields, with what follows.
abbrev pub layout :
    ℕ → Bytes → Bytes → Bytes → Bytes → Bytes → Bytes → Bytes → Bytes → Bytes → Bytes
layout tag k p b n t a f s rest = tag ∷ (k ++ (p ++ (b ++ (n ++ (t ++ (a ++ (f ++ (s ++ rest))))))))

-- The reader's slices are the fields.
pub record IsRead (tag : ℕ) (k p b n t a f s xs : Bytes) : Type 0 where
  pub tag_read : get_elem? xs 0 ≡ some tag
  pub account_read : slice 1 32 xs ≡ k
  pub previous_read : slice 33 32 xs ≡ p
  pub balance_read : slice 65 8 xs ≡ b
  pub nonce_read : slice 73 8 xs ≡ n
  pub timestamp_read : slice 81 8 xs ≡ t
  pub amount_read : slice 89 8 xs ≡ a
  pub field_read : slice 97 32 xs ≡ f
  pub signature_read : slice 129 64 xs ≡ s

pub layout-IsRead :
    (tag : ℕ) (k p b n t a f s rest : Bytes)
    → length k ≡ 32
    → length p ≡ 32
    → length b ≡ 8
    → length n ≡ 8
    → length t ≡ 8
    → length a ≡ 8
    → length f ≡ 32
    → length s ≡ 64
    → IsRead tag k p b n t a f s (layout tag k p b n t a f s rest)
layout-IsRead tag k p b n t a f s rest lk lp lb ln lt la lf ls =
    let xs = layout tag k p b n t a f s rest in
    let o1 : drop 1 xs ≡ k ++ (p ++ (b ++ (n ++ (t ++ (a ++ (f ++ (s ++ rest))))))) = refl in
    let o33 = skip 1 32 xs k (p ++ (b ++ (n ++ (t ++ (a ++ (f ++ (s ++ rest))))))) o1 lk in
    let o65 = skip 33 32 xs p (b ++ (n ++ (t ++ (a ++ (f ++ (s ++ rest)))))) o33 lp in
    let o73 = skip 65 8 xs b (n ++ (t ++ (a ++ (f ++ (s ++ rest))))) o65 lb in
    let o81 = skip 73 8 xs n (t ++ (a ++ (f ++ (s ++ rest)))) o73 ln in
    let o89 = skip 81 8 xs t (a ++ (f ++ (s ++ rest))) o81 lt in
    let o97 = skip 89 8 xs a (f ++ (s ++ rest)) o89 la in
    let o129 = skip 97 32 xs f (s ++ rest) o97 lf in
    record {
      tag_read = refl;
      account_read = at 1 32 xs k (p ++ (b ++ (n ++ (t ++ (a ++ (f ++ (s ++ rest))))))) o1 lk;
      previous_read = at 33 32 xs p (b ++ (n ++ (t ++ (a ++ (f ++ (s ++ rest)))))) o33 lp;
      balance_read = at 65 8 xs b (n ++ (t ++ (a ++ (f ++ (s ++ rest))))) o65 lb;
      nonce_read = at 73 8 xs n (t ++ (a ++ (f ++ (s ++ rest)))) o73 ln;
      timestamp_read = at 81 8 xs t (a ++ (f ++ (s ++ rest))) o81 lt;
      amount_read = at 89 8 xs a (f ++ (s ++ rest)) o89 la;
      field_read = at 97 32 xs f (s ++ rest) o97 lf;
      signature_read = at 129 64 xs s rest o129 ls;
    }

pub length-layout :
    (tag : ℕ) (k p b n t a f s rest : Bytes)
    → length (layout tag k p b n t a f s rest)
      ≡ 1
        + length k
        + length p
        + length b
        + length n
        + length t
        + length a
        + length f
        + length s
        + length rest
length-layout tag k p b n t a f s rest = simp length-append (omega arith)
