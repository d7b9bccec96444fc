-- ===== src/Crypto/Toy.antt =====
-- A stand-in for the cryptographic crates that computes, for tests and for the inputs at which
-- theorems are applied: hexadecimal is the real one, a digest is the data cut or padded to 32 bytes,
-- and a signature is the data and the key, cut or padded to 64.
use arxia.Prelude.{
  ℕ, zero, suc, ◌+◌, ◌-◌, ◌*◌, ◌/◌, ◌%◌, ◌<◌, ◌≡◌, refl, true, false, Option, some, none, [], ◌∷◌,
  ◌++◌, length, ap, arith, ltb, leb, ◌&&◌, if◌then◌else◌, All,
}
use arxia.Prelude.Ord.{Str, eqb, eqb_refl, str_ord}
use arxia.Prelude.Words.{Bytes, IsByte}
use arxia.Crypto.{Primitives, IsHex, IsDigest, IsBlake3, IsSigner}

unfoldable pub pad : ℕ → Bytes → Bytes
pad zero b = []
pad (suc n) [] = 0 ∷ pad n []
pad (suc n) (x ∷ b) = (x % 256) ∷ pad n b

length-pad : (n : ℕ) (b : Bytes) → length (pad n b) ≡ n
unfolding pad
length-pad zero b = refl
length-pad (suc n) [] = ap suc (length-pad n [])
length-pad (suc n) (x ∷ b) = ap suc (length-pad n b)

pub pad-IsByte : (n : ℕ) (b : Bytes) → All IsByte (pad n b)
unfolding pad
pad-IsByte zero b = tt
pad-IsByte (suc n) [] = (omega arith, pad-IsByte n [])
pad-IsByte (suc n) (x ∷ b) = (omega arith, pad-IsByte n b)

-- A digit of "0123456789abcdef", and its value; capital letters are read too.
unfoldable pub digit : ℕ → ℕ
digit d = if ltb d 10 then d + 48 else d + 87

unfoldable pub digit_value : ℕ → Option ℕ
digit_value c =
    if leb 48 c && leb c 57
    then some (c - 48)
    else if leb 97 c && leb c 102
    then some (c - 87)
    else if leb 65 c && leb c 70
    then some (c - 55)
    else none

unfoldable pub encode : Bytes → Str
encode [] = []
encode (x ∷ b) = digit (x / 16) ∷ digit (x % 16) ∷ encode b

pair_value : Option ℕ → Option ℕ → Option Bytes → Option Bytes
pair_value (some a) (some b) (some r) = some ((a * 16 + b) ∷ r)
pair_value (some a) (some b) none = none
pair_value (some a) none r = none
pair_value none b r = none

unfoldable pub decode : Str → Option Bytes
unfolding pair_value
decode [] = some []
decode (c ∷ []) = none
decode (c ∷ d ∷ s) = pair_value (digit_value c) (digit_value d) (decode s)

digit_value-digit : (d : ℕ) → d < 16 → digit_value (digit d) ≡ some d
unfolding digit digit_value
digit_value-digit d h = ground arith

decode-encode : (b : Bytes) → All IsByte b → decode (encode b) ≡ some b
unfolding decode encode
decode-encode [] h = refl
decode-encode (x ∷ b) h =
    ground (arith, digit_value-digit (x / 16), digit_value-digit (x % 16), decode-encode b h.1)

length-encode : (b : Bytes) → length (encode b) ≡ 2 * length b
unfolding encode
length-encode [] = refl
length-encode (x ∷ b) = omega (arith, length-encode b)

abbrev pub toy : Primitives
toy = record {
  hex_decode = decode;
  hex_encode = encode;
  is_point = λ k. true;
  is_weak = λ k. false;
  verify_strict = λ k d s. eqb s (pad 64 (d ++ k));
  verify_lenient = λ k d s. eqb s (pad 64 (d ++ k));
  public_of = λ k. k;
  sign = λ k d. pad 64 (d ++ k);
  blake3_hex = λ b. encode (pad 32 b);
  blake3 = pad 32;
}

pub toy-IsHex : IsHex toy
toy-IsHex = record { hex_decode-hex_encode = decode-encode; length-hex_encode = length-encode }

pub toy-IsDigest : IsDigest toy
toy-IsDigest = record {
  blake3_decodes = λ b. (pad 32 b, decode-encode (pad 32 b) (pad-IsByte 32 b));
}

pub toy-IsBlake3 : IsBlake3 toy
toy-IsBlake3 = record { length-blake3 = length-pad 32 }

pub toy-IsSigner : (key : Bytes) → IsSigner toy key
toy-IsSigner key = record {
  length-sign = λ d. length-pad 64 (d ++ key);
  verify-sign = λ d. eqb_refl (pad 64 (d ++ key));
}
