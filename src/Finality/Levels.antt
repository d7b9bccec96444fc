-- ===== src/Finality/Levels.antt =====
-- What the levels below L2 rest on.
use mathlib.Core.List.{Memᴰ}
use arxia.Prelude.{
  ℕ, ◌≤◌, ◌≡◌, ◌≢◌, Bool, true, false, ◌&&◌, inl, inr, List, [], ◌∷◌, arith, leb, Bool-cases,
  if◌then◌else◌, refl,
}
use arxia.Prelude.Ord.{str_ord, eqb, eqb_iff, nat_ord, pair_ord}
use arxia.Prelude.Map.{Set, contains_key, IsSorted}
use arxia.Prelude.Words.{Bytes}
use arxia.Prelude.Result.{Result, ok, ◌>>=◌, bind-ok, then-ok, err, panic}
use arxia.Crypto.{Primitives}
use arxia.Core.{l0_cap_micro_arx}
use arxia.Gossip.NonceRegistry.{
  SyncResult, NonceRegistry, sync_nonces_before_l1, success, mismatch, no_neighbors,
}
use arxia.Gossip.NonceRegistry.Sync.{sync_nonces_before_l1_iff}
use arxia.Finality.{
  FinalityError, SignedConfirmation, SignedValidatorVote, ValidatorRegistry, verify_confirmation,
  find_confirmation, has_l2_quorum, assess_finality, pending, l0, l1, l2, is_success, FinalityLevel,
}

not_l0 : (let r : Result FinalityError FinalityLevel = ok l2 in r) ≡ ok l0 → ⊥
not_l0 e = cc

-- Only a successful synchronization leads to L1.
only_l1 :
    (b : Bool) (amount : ℕ) (sync : SyncResult) (found : Result FinalityError Bool)
    → (if b
        then ok l2
        else if is_success sync
        then ok l1
        else if leb amount l0_cap_micro_arx
        then (found >>= λ b. ok (if b then l0 else pending))
        else ok pending)
      ≡ ok l1
    → sync ≡ success
only_l1 true amount sync found e = cc
only_l1 false amount success found e = refl
only_l1 false amount (mismatch n) (ok b) e = ground (arith, e)
only_l1 false amount (mismatch n) (err x) e = ground (arith, e)
only_l1 false amount (mismatch n) panic e = ground (arith, e)
only_l1 false amount no_neighbors (ok b) e = ground (arith, e)
only_l1 false amount no_neighbors (err x) e = ground (arith, e)
only_l1 false amount no_neighbors panic e = ground (arith, e)

module _ (c : Primitives) (registry : ValidatorRegistry) (block_hash : Bytes) where
  -- A confirmation of the block by a registered key, with a signature that verifies.
  pub record IsConfirmation (conf : SignedConfirmation) : Type 0 where
    for_block : conf.block_hash ≡ block_hash
    registered : contains_key conf.confirmer_pubkey registry ≡ true
    pub verified : verify_confirmation c conf ≡ ok tt

  find_confirmation_sound :
      (confirmations : List SignedConfirmation) (seen : Set Bytes)
      → find_confirmation c registry block_hash confirmations seen ≡ ok true
      → (conf : SignedConfirmation) × Memᴰ conf confirmations × IsConfirmation conf
  unfolding find_confirmation
  find_confirmation_sound [] seen e = cc
  find_confirmation_sound (conf ∷ confirmations) seen e =
      elim (Bool-cases
        (eqb conf.block_hash block_hash && contains_key conf.confirmer_pubkey registry)) [
          | inr other ↦
              let r =
                find_confirmation_sound confirmations seen (rw (find_confirmation, other) at e) in
              (r.0, Memᴰ.tail r.1, r.2)
          | inl eligible ↦
              let r =
                then-ok (verify_confirmation c conf)
                  (elim (contains_key conf.confirmer_pubkey seen) [
                    | true ↦ find_confirmation c registry block_hash confirmations seen
                    | false ↦ ok true
                  ])
                  true (rw (find_confirmation, eligible) at e) in
              (
                conf,
                Memᴰ.head refl,
                record {
                  for_block = ground (arith, eqb_iff conf.block_hash block_hash, eligible);
                  registered = ground (arith, eligible);
                  verified = r.0;
                },
              )
        ]

  below_l2 :
      (amount : ℕ) (sync : SyncResult) (found : Result FinalityError Bool) (level : FinalityLevel)
      → (if is_success sync
          then ok l1
          else if leb amount l0_cap_micro_arx
          then (found >>= λ b. ok (if b then l0 else pending))
          else ok pending)
        ≡ ok level
      → level ≡ l0
      → (amount ≤ l0_cap_micro_arx) × (found ≡ ok true)
  below_l2 amount success found level e p = cc
  below_l2 amount (mismatch n) (ok b) level e p = ground (arith, e, p)
  below_l2 amount (mismatch n) (err x) level e p = ground (arith, e, p)
  below_l2 amount (mismatch n) panic level e p = ground (arith, e, p)
  below_l2 amount no_neighbors (ok b) level e p = ground (arith, e, p)
  below_l2 amount no_neighbors (err x) level e p = ground (arith, e, p)
  below_l2 amount no_neighbors panic level e p = ground (arith, e, p)

  -- A block that is assessed at L0 moves at most 10_000_000 micro ARX, and one of the
  -- confirmations is of the block, by a registered key, and verifies.
  l0_sound :
      (amount : ℕ) (confirmations : List SignedConfirmation) (sync : SyncResult)
      (votes : List SignedValidatorVote)
      → assess_finality c amount block_hash confirmations sync votes registry ≡ ok l0
      → (amount ≤ l0_cap_micro_arx)
        × ((conf : SignedConfirmation) × Memᴰ conf confirmations × IsConfirmation conf)
  unfolding assess_finality
  l0_sound amount confirmations sync votes e =
      let r = bind-ok (has_l2_quorum c registry block_hash votes) _ l0 e in
      elim (Bool-cases r.0) [
        | inl reached ↦ absurd (not_l0 (rw reached at r.2))
        | inr below ↦
            let b =
              below_l2 amount sync (find_confirmation c registry block_hash confirmations []) l0
                (rw below at r.2) refl in
            (b.0, find_confirmation_sound confirmations [] b.1)
      ]

-- A block that is assessed at L1 from two registries in order of their keys has found them equal
-- and not empty.
l1_sound :
    (c : Primitives) (amount : ℕ) (block_hash : Bytes) (confirmations : List SignedConfirmation)
    (local remote : NonceRegistry) (votes : List SignedValidatorVote) (registry : ValidatorRegistry)
    → IsSorted local
    → IsSorted remote
    → assess_finality c amount block_hash confirmations
        (sync_nonces_before_l1 local remote)
        votes
        registry
      ≡ ok l1
    → (local ≡ remote) × (remote ≢ [])
unfolding assess_finality
l1_sound c amount block_hash confirmations local remote votes registry s t e =
    let r = bind-ok (has_l2_quorum c registry block_hash votes) _ l1 e in
    (sync_nonces_before_l1_iff local remote s t).0 (
      only_l1 r.0 amount (sync_nonces_before_l1 local remote)
        (find_confirmation c registry block_hash confirmations []) r.2)
