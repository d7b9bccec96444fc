-- ===== src/Escrow/Sequences.antt =====
-- Any sequence of calls on one escrow.
use arxia.Prelude.{
  ℕ, ◌+◌, ◌≤◌, ◌≡◌, ◌⊎◌, refl, List, [], ◌∷◌, arith, Bool-cases, inl, inr, if◌then◌else◌, true,
  false,
}
use arxia.Prelude.Result.{err, is_ok}
use arxia.Crypto.{Primitives}
use arxia.Escrow.{
  Escrow, not_locked, is_locked, release, refund, release_checks, refund_checks, Call, apply,
}

module _ (c : Primitives) where
  -- The escrow after the calls, and how many of them succeeded.
  pub run : Escrow → List (Call c) → Escrow
  run e [] = e
  run e (call ∷ calls) = run (apply c e call).1 calls

  pub successes : Escrow → List (Call c) → ℕ
  successes e [] = 0
  successes e (call ∷ calls) =
      (if is_ok (apply c e call).0 then 1 else 0) + successes (apply c e call).1 calls

  -- The guard at the head of both methods.
  apply_settled :
      (e : Escrow) (call : Call c)
      → is_locked e.state ≡ false
      → apply c e call ≡ (err not_locked, e)
  unfolding apply release refund release_checks refund_checks
  apply_settled e (Call.release_call k s) h = ground arith
  apply_settled e (Call.refund_call k s t) h = ground arith

  apply_settles :
      (e : Escrow) (call : Call c)
      → is_ok (apply c e call).0 ≡ true
      → is_locked (apply c e call).1.state ≡ false
  unfolding apply release refund
  apply_settles e (Call.release_call k s) h = ground arith
  apply_settles e (Call.refund_call k s t) h = ground arith

  apply_fails :
      (e : Escrow) (call : Call c) → is_ok (apply c e call).0 ≡ false → (apply c e call).1 ≡ e
  unfolding apply release refund
  apply_fails e (Call.release_call k s) h = ground arith
  apply_fails e (Call.refund_call k s t) h = ground arith

  -- An escrow that is released or refunded never changes again, whatever is called.
  run_settled :
      (e : Escrow) (calls : List (Call c))
      → is_locked e.state ≡ false
      → (run e calls ≡ e) × (successes e calls ≡ 0)
  unfolding run successes
  run_settled e [] h = (refl, refl)
  run_settled e (call ∷ calls) h = ground (arith, apply_settled e call, run_settled e calls h)

  -- Of the calls on an escrow at most one succeeds: it pays out once, to one side. If none does, the
  -- escrow is unchanged, and if one does, it is no longer locked.
  pub settles_once :
      (e : Escrow) (calls : List (Call c))
      → (successes e calls ≤ 1)
        × (((successes e calls ≡ 0) × (run e calls ≡ e))
            ⊎ ((successes e calls ≡ 1) × (is_locked (run e calls).state ≡ false)))
  unfolding run successes
  settles_once e [] = (omega arith, inl (refl, refl))
  settles_once e (call ∷ calls) = elim (Bool-cases (is_ok (apply c e call).0)) [
    | inl won ↦
        let s = apply_settles e call won in
        let later = run_settled (apply c e call).1 calls s in
        (ground arith, inr (ground arith, ground arith))
    | inr lost ↦ ground (arith, apply_fails e call lost, settles_once e calls)
  ]
