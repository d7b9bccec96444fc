-- ===== src/Escrow.antt =====
-- contracts/escrow/src/lib.rs: `struct Escrow` and its methods. The `&'static str` of a refusal
-- is a constructor of `EscrowError`.
pub mod Settlement
pub mod Messages
pub mod Sequences
mod Tests
use arxia.Prelude.{
  ℕ, ◌≡◌, Bool, true, false, Option, none, some, List, [], ◌∷◌, ◌++◌, length, ltb, ◌==◌,
  if◌then◌else◌,
}
use arxia.Prelude.Ord.{Str, eqb, str_ord}
use arxia.Prelude.Words.{Bytes, to_be_bytes}
use arxia.Prelude.Result.{Result, ok, err, panic, ◌>>=◌, ◌>>◌, ensure, ok_or}
use arxia.Crypto.{Primitives}

pub data EscrowState : Type 0 where
  locked released refunded : EscrowState

pub data EscrowError : Type 0 where
  not_locked timeout_not_elapsed not_recipient not_sender : EscrowError
  sender_not_hex recipient_not_hex sender_not_32_bytes recipient_not_32_bytes : EscrowError
  invalid_caller_pubkey invalid_signature : EscrowError

pub record Escrow : Type 0 where
  pub sender : Str
  pub recipient : Str
  pub amount : ℕ
  pub state : EscrowState
  pub timeout : ℕ

-- `ESCROW_RELEASE_DOMAIN`, "arxia-escrow-release-v1"
abbrev pub escrow_release_domain : Bytes
escrow_release_domain =
    97 ∷ 114 ∷ 120 ∷ 105 ∷ 97 ∷ 45 ∷ 101 ∷ 115 ∷ 99 ∷ 114 ∷ 111 ∷ 119 ∷ 45 ∷ 114 ∷ 101 ∷ 108 ∷ 101
    ∷ 97 ∷ 115 ∷ 101 ∷ 45 ∷ 118 ∷ 49 ∷ []

-- `ESCROW_REFUND_DOMAIN`, "arxia-escrow-refund-v1"
abbrev pub escrow_refund_domain : Bytes
escrow_refund_domain =
    97 ∷ 114 ∷ 120 ∷ 105 ∷ 97 ∷ 45 ∷ 101 ∷ 115 ∷ 99 ∷ 114 ∷ 111 ∷ 119 ∷ 45 ∷ 114 ∷ 101 ∷ 102 ∷ 117
    ∷ 110 ∷ 100 ∷ 45 ∷ 118 ∷ 49 ∷ []

-- `Escrow::new`
pub new : Str → Str → ℕ → ℕ → Escrow
new sender recipient amount timeout = record {
  sender = sender;
  recipient = recipient;
  amount = amount;
  state = locked;
  timeout = timeout;
}

abbrev pub is_locked : EscrowState → Bool
is_locked locked = true
is_locked released = false
is_locked refunded = false

module _ (c : Primitives) where
  pub identity_bytes : Escrow → Result EscrowError Bytes
  identity_bytes e = do
    sender_bytes ← ok_or (c.hex_decode e.sender) sender_not_hex
    recipient_bytes ← ok_or (c.hex_decode e.recipient) recipient_not_hex
    ensure (length sender_bytes == 32) sender_not_32_bytes
    ensure (length recipient_bytes == 32) recipient_not_32_bytes
    ok (sender_bytes ++ (recipient_bytes ++ (to_be_bytes e.amount ++ to_be_bytes e.timeout)))

  pub release_message : Escrow → Result EscrowError Bytes
  release_message e = do identity ← identity_bytes e; ok (escrow_release_domain ++ identity)

  pub refund_message : Escrow → Result EscrowError Bytes
  refund_message e = do identity ← identity_bytes e; ok (escrow_refund_domain ++ identity)

  -- The checks of `release`, in its order.
  pub release_checks : Escrow → Bytes → Bytes → Result EscrowError (Unit {0})
  release_checks e caller signature = do
    ensure (is_locked e.state) not_locked
    recipient_bytes ← ok_or (c.hex_decode e.recipient) recipient_not_hex
    ensure (length recipient_bytes == 32) recipient_not_32_bytes
    ensure (eqb recipient_bytes caller) not_recipient
    msg ← release_message e
    ensure (c.is_point caller) invalid_caller_pubkey
    ensure (c.verify_lenient caller msg signature) invalid_signature

  -- The checks of `refund`, in its order.
  pub refund_checks : Escrow → Bytes → Bytes → ℕ → Result EscrowError (Unit {0})
  refund_checks e caller signature now = do
    ensure (is_locked e.state) not_locked
    if ltb now e.timeout then err timeout_not_elapsed else ok tt
    sender_bytes ← ok_or (c.hex_decode e.sender) sender_not_hex
    ensure (length sender_bytes == 32) sender_not_32_bytes
    ensure (eqb sender_bytes caller) not_sender
    msg ← refund_message e
    ensure (c.is_point caller) invalid_caller_pubkey
    ensure (c.verify_lenient caller msg signature) invalid_signature

  -- A method returns its result and the escrow after the call.
  abbrev settle :
      Escrow → EscrowState → Result EscrowError (Unit {0}) → Result EscrowError (Unit {0}) × Escrow
  settle e s (ok _) = (ok tt, record e { state = s })
  settle e s (err x) = (err x, e)
  settle e s panic = (panic, e)

  pub release : Escrow → Bytes → Bytes → Result EscrowError (Unit {0}) × Escrow
  release e caller signature = settle e released (release_checks e caller signature)

  pub refund : Escrow → Bytes → Bytes → ℕ → Result EscrowError (Unit {0}) × Escrow
  refund e caller signature now = settle e refunded (refund_checks e caller signature now)

  -- What a caller may do with an escrow.
  pub data Call : Type 0 where
    release_call : Bytes → Bytes → Call
    refund_call : Bytes → Bytes → ℕ → Call

  pub apply : Escrow → Call → Result EscrowError (Unit {0}) × Escrow
  apply e (release_call caller signature) = release e caller signature
  apply e (refund_call caller signature now) = refund e caller signature now
