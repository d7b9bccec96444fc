-- ===== src/Transport/Messages/Tests.antt =====
-- A key with which the theorem on signing is applied.
use arxia.Prelude.{◌≡◌, refl, [], ◌∷◌}
use arxia.Prelude.Words.{Bytes}
use arxia.Prelude.Result.{ok}
use arxia.Crypto.Toy.{toy, toy-IsHex, toy-IsSigner, pad, pad-IsByte}
use arxia.Transport.Messages.Signing.{IsKey, sign_and_verify, verify_signed-sign}

abbrev key : Bytes
key = pad 32 (9 ∷ [])

key-IsKey : IsKey toy key
unfolding pad
key-IsKey = record {
  signer = toy-IsSigner key;
  bytes = pad-IsByte 32 (9 ∷ []);
  long = refl;
  point = refl;
}

verify_signed-sign_example : sign_and_verify toy key (98 ∷ []) (1 ∷ 2 ∷ []) 7 ≡ ok tt
verify_signed-sign_example = verify_signed-sign toy key (98 ∷ []) (1 ∷ 2 ∷ []) 7 toy-IsHex key-IsKey
