-- ===== src/Lattice/Chain/Run.antt =====
-- Any sequence of calls on one account.
use arxia.Prelude.{
  ℕ, ◌+◌, ◌≡◌, refl, List, [], ◌∷◌, some, last?, arith, true, false, Option-cases, inl, inr,
  last?-append, Bool,
}
use arxia.Prelude.Ord.{Str, str_ord}
use arxia.Prelude.Map.{contains_key}
use arxia.Prelude.Map.Laws.{lookup-insert, lookup-insert_self}
use arxia.Prelude.Result.{Result, is_ok}
use arxia.Core.{ArxiaError, account_already_open}
use arxia.Lattice.Block.{Block, Host}
use arxia.Lattice.Clock.{VectorClock, tick}
use arxia.Lattice.Chain.{
  AccountChain, Outcome, open_account, send, receive, receive_checks, push_block, consume,
}
use arxia.Lattice.Chain.Invariant.{IsValid, IsReady}
use arxia.Lattice.Chain.Open.{open_error, open_refuses}
use arxia.Lattice.Chain.Send.{send_error, send_refuses, send_accepts}
use arxia.Lattice.Chain.Receive.{
  receive_error, receive_refuses, receive_accepts, received-IsValid, amount_of,
}

-- A call, at a time.
pub data Op : Type 0 where
  open_op : ℕ → ℕ → Op
  send_op : Str → ℕ → ℕ → Op
  receive_op : Block → ℕ → Op

module _ (h : Host) where
  pub step : AccountChain → VectorClock → Op → Outcome
  step a v (open_op n now) = open_account h a n v now
  step a v (send_op d n now) = send h a d n v now
  step a v (receive_op b now) = receive h a b v now

  pub run : AccountChain → VectorClock → List Op → AccountChain
  run a v [] = a
  run a v (op ∷ ops) = let (r, a', v') = step a v op in run a' v' ops

  -- What the calls that succeeded took out, and what they brought in.
  abbrev debit : Op → Bool → ℕ
  debit (send_op d n now) true = n
  debit _ _ = 0

  abbrev credit : Op → Bool → ℕ
  credit (receive_op b now) true = amount_of b.block_type
  credit _ _ = 0

  pub debits : AccountChain → VectorClock → List Op → ℕ
  debits a v [] = 0
  debits a v (op ∷ ops) = let (r, a', v') = step a v op in debit op (is_ok r) + debits a' v' ops

  pub credits : AccountChain → VectorClock → List Op → ℕ
  credits a v [] = 0
  credits a v (op ∷ ops) = let (r, a', v') = step a v op in credit op (is_ok r) + credits a' v' ops

  -- What one call keeps and moves.
  pub record Steps (a : AccountChain) (op : Op) (r : Bool) (a' : AccountChain) : Type 0 where
    pub valid : IsValid h a'
    ready : IsReady h a'
    pub last : Block
    last_eq : last? a'.blocks ≡ some last
    moved : a'.balance + debit op r ≡ a.balance + credit op r

  refused :
      (a : AccountChain) (op : Op) (l : Block)
      → IsValid h a
      → IsReady h a
      → last? a.blocks ≡ some l
      → Steps a op false a
  refused a (open_op n now) l i r e = record {
    valid = i;
    ready = r;
    last = l;
    last_eq = e;
    moved = refl;
  }
  refused a (send_op d n now) l i r e = record {
    valid = i;
    ready = r;
    last = l;
    last_eq = e;
    moved = refl;
  }
  refused a (receive_op b now) l i r e = record {
    valid = i;
    ready = r;
    last = l;
    last_eq = e;
    moved = refl;
  }

  open_again :
      (bs : List Block) (n : ℕ) (l : Block)
      → last? bs ≡ some l
      → open_error bs n ≡ some account_already_open
  open_again [] n l e = cc
  open_again (b ∷ bs) n l e = refl

  step-Steps :
      (a : AccountChain) (v : VectorClock) (op : Op) (l : Block)
      → IsValid h a
      → IsReady h a
      → last? a.blocks ≡ some l
      → let (r, a', v') = step a v op in Steps a op (is_ok r) a'
  unfolding step
  step-Steps a v (open_op n now) l i r e =
      rw (open_refuses h a n v now account_already_open (open_again a.blocks n l e))
        (refused a (open_op n now) l i r e)
  step-Steps a v (send_op d n now) l i r e = elim (Option-cases (send_error a d n)) [
    | inr (x, p) ↦ rw (send_refuses h a d n v now x p) (refused a (send_op d n now) l i r e)
    | inl p ↦
        let s = send_accepts h a d n v now i r p in
        rw s.outcome (record {
          valid = s.valid;
          ready = record {
            key_decodes = r.key_decodes;
            key_strict = r.key_strict;
            sid = r.sid;
            sid_eq = r.sid_eq;
            json = r.json;
            digest = r.digest;
          };
          last = s.block;
          last_eq = last?-append a.blocks s.block;
          moved = omega (arith, s.paid, s.made.balance_eq);
        })
  ]
  step-Steps a v (receive_op b now) l i r e =
      elim (Option-cases (receive_error a b.hash b.block_type)) [
        | inr (x, p) ↦ rw (receive_refuses h a b v now x p) (refused a (receive_op b now) l i r e)
        | inl p ↦
            let s = receive_accepts h a b v now i.keyed r p in
            let valid' = received-IsValid h a b v (tick r.sid v) now {last = l} i e s in
            rw s.outcome (record {
              valid = valid';
              ready = record {
                key_decodes = r.key_decodes;
                key_strict = r.key_strict;
                sid = r.sid;
                sid_eq = r.sid_eq;
                json = r.json;
                digest = r.digest;
              };
              last = s.block;
              last_eq = last?-append a.blocks s.block;
              moved = omega arith;
            })
      ]

  -- After any calls on an account that has a block, satisfies the invariant and whose hashes can
  -- be computed (`IsReady`), the invariant holds: the chain passes `verify_chain_integrity`, and
  -- nonce and balance are those of its last block and within the cap. What the sends that
  -- succeeded took and the balance come to what the receives that succeeded brought and the
  -- balance before.
  pub run-IsValid :
      (a : AccountChain) (v : VectorClock) (ops : List Op) (l : Block)
      → IsValid h a
      → IsReady h a
      → last? a.blocks ≡ some l
      → IsValid h (run a v ops)
        × ((run a v ops).balance + debits a v ops ≡ a.balance + credits a v ops)
  unfolding run debits credits
  run-IsValid a v [] l i r e = (i, refl)
  run-IsValid a v (op ∷ ops) l i r e =
      let (outcome, a', v') = step a v op in
      let s = step-Steps a v op l i r e in
      let (valid', sum) = run-IsValid a' v' ops s.last s.valid s.ready s.last_eq in
      (valid', omega (arith, s.moved, sum))

  keeps_push :
      (k : Str) (x : Result ArxiaError Block) (a : AccountChain) (v : VectorClock)
      → contains_key k a.consumed_sources ≡ true
      → contains_key k (push_block h x a v).1.consumed_sources ≡ true
  unfolding push_block
  keeps_push k x a v c = ground arith

  keeps_consume :
      (k s : Str) (o : Outcome)
      → contains_key k o.1.consumed_sources ≡ true
      → contains_key k (consume h s o).1.consumed_sources ≡ true
  unfolding consume
  keeps_consume k s o c = ground (arith, lookup-insert k s tt o.1.consumed_sources)

  -- No call forgets a source.
  step_keeps :
      (k : Str) (a : AccountChain) (v : VectorClock) (op : Op)
      → contains_key k a.consumed_sources ≡ true
      → contains_key k (step a v op).1.consumed_sources ≡ true
  unfolding step open_account send receive
  step_keeps k a v (open_op n now) c = grind (arith, keeps_push)
  step_keeps k a v (send_op d n now) c = grind (arith, keeps_push)
  step_keeps k a v (receive_op b now) c = grind (arith, keeps_push, keeps_consume)

  run_keeps :
      (k : Str) (a : AccountChain) (v : VectorClock) (ops : List Op)
      → contains_key k a.consumed_sources ≡ true
      → contains_key k (run a v ops).consumed_sources ≡ true
  unfolding run
  run_keeps k a v [] c = c
  run_keeps k a v (op ∷ ops) c =
      let (outcome, a', v') = step a v op in run_keeps k a' v' ops (step_keeps k a v op c)

  receive_marks :
      (a : AccountChain) (b : Block) (v : VectorClock) (now : ℕ)
      → is_ok (receive h a b v now).0 ≡ true
      → contains_key b.hash (receive h a b v now).1.consumed_sources ≡ true
  unfolding receive push_block consume
  receive_marks a b v now s = grind (arith, lookup-insert_self)

  marked_refuses :
      (a : AccountChain) (b : Block) (v : VectorClock) (now : ℕ)
      → contains_key b.hash a.consumed_sources ≡ true
      → is_ok (receive h a b v now).0 ≡ false
  unfolding receive receive_checks
  marked_refuses a b v now c = ground arith

  -- Once an account has received a send, it never receives a block of that hash again, whatever is
  -- called between, whichever clock and time it is offered at. Nothing is assumed of the account.
  pub receive_once :
      (a : AccountChain) (b b' : Block) (v w : VectorClock) (now then' : ℕ) (ops : List Op)
      → is_ok (receive h a b v now).0 ≡ true
      → b'.hash ≡ b.hash
      → let (r, a', v') = receive h a b v now in
        is_ok (receive h (run a' v' ops) b' w then').0 ≡ false
  receive_once a b b' v w now then' ops s e =
      let (r, a', v') = receive h a b v now in
      marked_refuses (run a' v' ops) b' w then'
        (rw e (run_keeps b.hash a' v' ops (receive_marks a b v now s)))
