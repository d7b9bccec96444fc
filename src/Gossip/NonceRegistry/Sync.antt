-- ===== src/Gossip/NonceRegistry/Sync.antt =====
-- When two registries count as synchronized.
use mathlib.Core.List.{Memᴰ}
use mathlib.Core.Path.{subst}
use arxia.Prelude.{
  ◌+◌, ◌≡◌, ◌↔◌, ◌≢◌, refl, sym, ◌∙◌, none, some, Option, [], ◌∷◌, arith, Option-cases, Bool-cases,
  inl, inr, true,
}
use arxia.Prelude.Ord.{str_ord, eqb, eqb_iff, nat_ord, pair_ord, eqb_refl}
use arxia.Prelude.Map.{lookup, IsSorted, After}
use arxia.Prelude.Map.Laws.{lookup-After}
use arxia.Prelude.Map.Ext.{map_ext}
use arxia.Gossip.NonceRegistry.{
  NonceConflict, NonceKey, NonceEntry, NonceRegistry, same_entry, count_local, count_remote,
  sync_nonces_before_l1, success, merge_nonce_registries,
}
use arxia.Gossip.NonceRegistry.Merge.{merge-IsSorted, lookup-merge, conflicts_iff, kept}

same_entry_iff : (i : NonceEntry) (o : Option NonceEntry) → (same_entry i o ≡ true) ↔ (o ≡ some i)
same_entry_iff i none = ground arith
same_entry_iff i (some h) = ground (arith, eqb_iff h i)

-- Every entry of the first registry is one of the second.
abbrev Within : NonceRegistry → NonceRegistry → Type 0
Within v w = (k : NonceKey) (h : NonceEntry) → lookup k v ≡ some h → lookup k w ≡ some h

count_local_zero :
    (local remote : NonceRegistry) → count_local local remote ≡ 0 → Within local remote
unfolding count_local lookup
count_local_zero [] remote e k h p = cc
count_local_zero ((j, i) ∷ local) remote e k h p = ground (
  arith,
  count_local_zero local remote (omega arith) k h,
  eqb_iff k j,
  same_entry_iff i (lookup j remote),
)

Within-tail :
    (j : NonceKey) (i : NonceEntry) (v w : NonceRegistry)
    → After j v
    → Within ((j, i) ∷ v) w
    → (lookup j w ≡ some i) × Within v w
unfolding lookup
Within-tail j i v w a in_w = (
  in_w j i (ground (arith, eqb_refl j)),
  λ k h p. in_w k h (ground (arith, eqb_iff k j, lookup-After j v a, p)),
)

count_local_none :
    (local remote : NonceRegistry)
    → IsSorted local
    → Within local remote
    → count_local local remote ≡ 0
unfolding count_local
count_local_none [] remote s in_w = refl
count_local_none ((j, i) ∷ local) remote s in_w =
    let t = Within-tail j i local remote s.0 in_w in
    ground (arith, count_local_none local remote s.1 t.1, same_entry_iff i (lookup j remote), t.0)

count_remote_zero :
    (local remote : NonceRegistry) (k : NonceKey)
    → count_remote local remote ≡ 0
    → lookup k local ≡ none
    → lookup k remote ≡ none
unfolding count_remote lookup
count_remote_zero local [] k e p = refl
count_remote_zero local ((j, i) ∷ remote) k e p =
    ground (arith, count_remote_zero local remote k (omega arith) p, eqb_iff k j)

count_remote_none :
    (local remote : NonceRegistry)
    → IsSorted remote
    → Within remote local
    → count_remote local remote ≡ 0
unfolding count_remote
count_remote_none local [] s in_w = refl
count_remote_none local ((j, i) ∷ remote) s in_w =
    let t = Within-tail j i remote local s.0 in_w in
    ground (arith, count_remote_none local remote s.1 t.1, t.0)

agree_from_counts :
    (local remote : NonceRegistry) (k : NonceKey)
    → count_local local remote ≡ 0
    → count_remote local remote ≡ 0
    → lookup k local ≡ lookup k remote
agree_from_counts local remote k e d = elim (Option-cases (lookup k local)) [
  | inl absent ↦ cc (absent, count_remote_zero local remote k d absent)
  | inr (h, there) ↦ cc (there, count_local_zero local remote e k h there)
]

sync_sound :
    (local remote : NonceRegistry)
    → IsSorted local
    → IsSorted remote
    → sync_nonces_before_l1 local remote ≡ success
    → (local ≡ remote) × (remote ≢ [])
unfolding sync_nonces_before_l1
sync_sound local [] s t e = cc
sync_sound local (x ∷ remote) s t e =
    let zero : count_local local (x ∷ remote) + count_remote local (x ∷ remote) ≡ 0 =
      ground arith in
    (
      map_ext local (x ∷ remote) s t
          (λ k. agree_from_counts local (x ∷ remote) k (omega (arith, zero)) (omega (arith, zero))),
      (λ p. cc p),
    )

sync_complete :
    (local remote : NonceRegistry)
    → IsSorted remote
    → local ≡ remote
    → remote ≢ []
    → sync_nonces_before_l1 local remote ≡ success
unfolding sync_nonces_before_l1
sync_complete local [] t e n = absurd (n refl)
sync_complete local (x ∷ remote) t e n = rw e (
    ground (
      arith,
      count_local_none (x ∷ remote) (x ∷ remote) t (λ k h p. p),
      count_remote_none (x ∷ remote) (x ∷ remote) t (λ k h p. p),
    ))

-- On registries in order of their keys, synchronization succeeds exactly if the two are equal and
-- not empty.
pub sync_nonces_before_l1_iff :
    (local remote : NonceRegistry)
    → IsSorted local
    → IsSorted remote
    → (sync_nonces_before_l1 local remote ≡ success) ↔ ((local ≡ remote) × (remote ≢ []))
sync_nonces_before_l1_iff local remote s t =
    (sync_sound local remote s t, (λ p. sync_complete local remote t p.0 p.1))

kept_agree :
    (local remote : NonceRegistry) (k : NonceKey)
    → IsSorted remote
    → (merge_nonce_registries local remote).1 ≡ []
    → kept (lookup k local) (lookup k remote) ≡ kept (lookup k remote) (lookup k local)
kept_agree local remote k s e = elim (Option-cases (lookup k local)) [
  | inl here ↦ ground (arith, here)
  | inr (l, here) ↦ elim (Option-cases (lookup k remote)) [
    | inl there ↦ ground (arith, here, there)
    | inr (r, there) ↦ elim (Bool-cases (eqb l r)) [
      | inl same ↦ cc (here, there, (eqb_iff l r).0 same)
      | inr other ↦
          let c : NonceConflict = record { key = k; local_hash = l; remote_hash = r } in
          let m =
            (conflicts_iff local remote s c).1 (here, there, λ p. cc ((eqb_iff l r).1 p, other)) in
          elim (subst (λ cs. Memᴰ c cs) e m) [ ]
    ]
  ]
]

-- Two registries in order of their keys that merge without a conflict into a registry that is not
-- empty: when each has merged the other, synchronization succeeds.
pub sync_after_merge :
    (local remote : NonceRegistry)
    → IsSorted local
    → IsSorted remote
    → (merge_nonce_registries local remote).1 ≡ []
    → (merge_nonce_registries remote local).0 ≢ []
    → sync_nonces_before_l1
        (merge_nonce_registries local remote).0
        (merge_nonce_registries remote local).0
      ≡ success
sync_after_merge local remote s t e n =
    let v = (merge_nonce_registries local remote).0 in
    let w = (merge_nonce_registries remote local).0 in
    let same : v ≡ w =
      map_ext v w (merge-IsSorted local remote s) (merge-IsSorted remote local t) (λ k.
        lookup-merge k local remote t
        ∙ kept_agree local remote k t e
        ∙ sym (lookup-merge k remote local s)) in
    sync_complete v w (merge-IsSorted remote local t) same n
