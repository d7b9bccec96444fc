-- ===== src/Lattice/Tests.antt =====
-- An account with a key of 32 bytes, opened with 100, at which the theorems on the lattice are applied.
use arxia.Prelude.{◌+◌, ◌≡◌, refl, true, false, List, [], ◌∷◌, last?, some, none, replicate, arith}
use arxia.Prelude.Ord.{cmp_str, str_ord}
use arxia.Prelude.Words.{Bytes}
use arxia.Prelude.Map.{lookup}
use arxia.Prelude.Result.{is_ok}
use arxia.Crypto.Toy.{
  toy, toy-IsHex, toy-IsDigest, toy-IsSigner, encode, decode, digit, digit_value,
}
use arxia.Lattice.Block.{Block, Host, send_block, decode_account}
use arxia.Lattice.Clock.{tick}
use arxia.Lattice.Chain.{AccountChain, first_eight, open_account, send, receive}
use arxia.Lattice.Chain
use arxia.Lattice.Chain.Invariant.{IsReady}
use arxia.Lattice.Chain.Invariant
use arxia.Lattice.Chain.Open.{Opened, OpenOutcome, open_error, open_lem, new-IsValid}
use arxia.Lattice.Chain.Send.{SendOutcome, send_error, send_lem}
use arxia.Lattice.Chain.Receive.{ReceiveOutcome, receive_error, receive_lem, receive_accepts}
use arxia.Lattice.Chain.Run.{
  Op, send_op, receive_op, run, debits, credits, run-IsValid, receive_once,
}
use arxia.Crypto.{validate_pubkey_strict}

abbrev pub host : Host
host = record { primitives = toy; block_type_json = λ t. some (116 ∷ []) }

abbrev pub secret : Bytes
secret = replicate 32 7

abbrev pub fresh : AccountChain
fresh = Chain.new host secret

pub fresh-IsValid : Invariant.IsValid host fresh
fresh-IsValid = new-IsValid host secret toy-IsHex (toy-IsSigner secret) (omega arith)

pub fresh-IsReady : IsReady host fresh
unfolding Chain.new first_eight decode_account encode decode digit digit_value
    validate_pubkey_strict
fresh-IsReady = record {
  key_decodes = refl;
  key_strict = refl;
  sid = encode (7 ∷ 7 ∷ 7 ∷ 7 ∷ []);
  sid_eq = refl;
  json = λ t. (116 ∷ [], refl);
  digest = toy-IsDigest;
}

open_lem_example :
    OpenOutcome host fresh 100 [] (tick fresh-IsReady.sid []) 5 (open_error fresh.blocks 100)
open_lem_example = open_lem host fresh 100 [] 5 fresh-IsValid.keyed fresh-IsReady

-- The genesis block of the account.
pub genesis : Opened host fresh 100 [] (tick fresh-IsReady.sid []) 5
unfolding Chain.new
genesis = open_lem host fresh 100 [] 5 fresh-IsValid.keyed fresh-IsReady

abbrev opened : AccountChain
opened = (open_account host fresh 100 [] 5).1

opened-IsValid : Invariant.IsValid host opened
opened-IsValid = rw (opened, genesis.outcome) genesis.valid

opened-IsReady : IsReady host opened
unfolding Chain.new
opened-IsReady =
    rw (opened, genesis.outcome)
      (record {
        key_decodes = fresh-IsReady.key_decodes;
        key_strict = fresh-IsReady.key_strict;
        sid = fresh-IsReady.sid;
        sid_eq = fresh-IsReady.sid_eq;
        json = fresh-IsReady.json;
        digest = fresh-IsReady.digest;
      })

opened_last : last? opened.blocks ≡ some genesis.block
opened_last = rw (opened, genesis.outcome) refl

send_lem_example :
    SendOutcome host opened
      (1 ∷ [])
      30
      []
      (tick opened-IsReady.sid [])
      9
      (send_error opened (1 ∷ []) 30)
send_lem_example = send_lem host opened (1 ∷ []) 30 [] 9 opened-IsValid opened-IsReady

-- A send of 20 to the account.
abbrev payment : Block
payment = record {
  account = 1 ∷ [];
  previous = 2 ∷ [];
  block_type = send_block (encode secret) 20;
  balance = 0;
  nonce = 2;
  timestamp = 0;
  hash = 3 ∷ [];
  signature = [];
}

receive_lem_example :
    ReceiveOutcome host opened payment []
      (tick opened-IsReady.sid [])
      9
      (receive_error opened payment.hash payment.block_type)
receive_lem_example =
    receive_lem host opened payment [] 9 genesis.block opened-IsValid opened-IsReady opened_last

-- A send, a receive, and a send of more than is left.
abbrev ops : List Op
ops = send_op (1 ∷ []) 30 9 ∷ receive_op payment 10 ∷ send_op (1 ∷ []) 500 11 ∷ []

run-IsValid_example :
    Invariant.IsValid host (run host opened [] ops)
    × ((run host opened [] ops).balance + debits host opened [] ops
        ≡ opened.balance + credits host opened [] ops)
run-IsValid_example =
    run-IsValid host opened [] ops genesis.block opened-IsValid opened-IsReady opened_last

payment_accepted : receive_error fresh payment.hash payment.block_type ≡ none
unfolding Chain.new lookup cmp_str encode digit
payment_accepted = refl

payment_received : is_ok (receive host fresh payment [] 9).0 ≡ true
payment_received =
    rw
      ((receive_accepts host fresh payment [] 9 fresh-IsValid.keyed fresh-IsReady
        payment_accepted).outcome)
      refl

receive_once_example :
    let (r, a', v') = receive host fresh payment [] 9 in
    is_ok (receive host (run host a' v' ops) payment [] 12).0 ≡ false
receive_once_example = receive_once host fresh payment payment [] [] 9 12 ops payment_received refl
