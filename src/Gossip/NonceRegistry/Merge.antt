-- ===== src/Gossip/NonceRegistry/Merge.antt =====
-- What a merge keeps, adds and reports.
use mathlib.Core.List.{Memᴰ}
use arxia.Prelude.{
  true, ◌≡◌, ◌↔◌, ◌≢◌, ap, none, some, Option, [], ◌∷◌, arith, Option-cases, Bool-cases, inl, inr,
  ◌⊎◌,
}
use arxia.Prelude.Ord.{str_ord, eqb, eqb_iff, nat_ord, pair_ord}
use arxia.Prelude.Map.{lookup, insert, contains_key, IsSorted, After}
use arxia.Prelude.Map.Laws.{lookup-insert, insert-IsSorted, lookup-After}
use arxia.Gossip.NonceRegistry.{
  NonceKey, NonceEntry, NonceRegistry, NonceConflict, merge_nonce_registries,
}

-- The entry of a key after a merge: the local one, if there is one.
abbrev pub kept : Option NonceEntry → Option NonceEntry → Option NonceEntry
kept (some h) remote = some h
kept none remote = remote

pub merge-IsSorted :
    (local remote : NonceRegistry)
    → IsSorted local
    → IsSorted (merge_nonce_registries local remote).0
unfolding merge_nonce_registries
merge-IsSorted local [] s = s
merge-IsSorted local ((k, h) ∷ remote) s = ground (
  arith,
  merge-IsSorted local remote s,
  merge-IsSorted (insert k h local) remote (insert-IsSorted k h local s),
)

pub lookup-merge :
    (j : NonceKey) (local remote : NonceRegistry)
    → IsSorted remote
    → lookup j (merge_nonce_registries local remote).0 ≡ kept (lookup j local) (lookup j remote)
unfolding merge_nonce_registries lookup
lookup-merge j local [] s = ground arith
lookup-merge j local ((k, h) ∷ remote) s = ground (
  arith,
  lookup-merge j local remote s.1,
  lookup-merge j (insert k h local) remote s.1,
  lookup-insert j k h local,
  lookup-After k remote s.0,
  eqb_iff j k,
)

-- The registries hold different hashes for the key of the conflict.
abbrev IsConflict : NonceRegistry → NonceRegistry → NonceConflict → Type 0
IsConflict local remote c =
    (lookup c.key local ≡ some c.local_hash)
    × (lookup c.key remote ≡ some c.remote_hash)
    × (c.local_hash ≢ c.remote_hash)

empty_lem : (local : NonceRegistry) (c : NonceConflict) → IsConflict local [] c → ⊥
unfolding lookup
empty_lem local c p = ground (arith, p)

-- An entry of a new key makes no conflict.
inserted_iff :
    (k : NonceKey) (h : NonceEntry) (local remote : NonceRegistry) (c : NonceConflict)
    → After k remote
    → lookup k local ≡ none
    → IsConflict (insert k h local) remote c ↔ IsConflict local ((k, h) ∷ remote) c
unfolding lookup
inserted_iff k h local remote c a e =
    ground (arith, lookup-insert c.key k h local, lookup-After k remote a, eqb_iff c.key k)

-- Nor does an entry with the local hash.
same_iff :
    (k : NonceKey) (l h : NonceEntry) (local remote : NonceRegistry) (c : NonceConflict)
    → After k remote
    → lookup k local ≡ some l
    → l ≡ h
    → IsConflict local remote c ↔ IsConflict local ((k, h) ∷ remote) c
unfolding lookup
same_iff k l h local remote c a e same = ground (arith, lookup-After k remote a, eqb_iff c.key k)

later_sound :
    (k : NonceKey) (l h : NonceEntry) (local remote : NonceRegistry) (c : NonceConflict)
    → After k remote
    → IsConflict local remote c
    → IsConflict local ((k, h) ∷ remote) c
unfolding lookup
later_sound k l h local remote c a p = ground (arith, lookup-After k remote a, eqb_iff c.key k)

first_sound :
    (k : NonceKey) (l h : NonceEntry) (local remote : NonceRegistry) (c : NonceConflict)
    → lookup k local ≡ some l
    → l ≢ h
    → c ≡ record { key = k; local_hash = l; remote_hash = h }
    → IsConflict local ((k, h) ∷ remote) c
unfolding lookup
first_sound k l h local remote c e n p =
    ground (
      arith,
      eqb_iff c.key k,
      ap (λ c. c.key) p,
      ap (λ c. c.local_hash) p,
      ap (λ c. c.remote_hash) p,
    )

first_complete :
    (k : NonceKey) (l h : NonceEntry) (local remote : NonceRegistry) (c : NonceConflict)
    → lookup k local ≡ some l
    → IsConflict local ((k, h) ∷ remote) c
    → (c ≡ record { key = k; local_hash = l; remote_hash = h }) ⊎ IsConflict local remote c
unfolding lookup
first_complete k l h local remote c e p = elim (Bool-cases (eqb c.key k)) [
  | inl same ↦
      let fields : (c.key ≡ k) × (c.local_hash ≡ l) × (c.remote_hash ≡ h) =
        ground (arith, eqb_iff c.key k, ap (λ j. lookup j local) ((eqb_iff c.key k).0 same)) in
      inl (cc (fields.0, fields.1, fields.2))
  | inr other ↦ inr (ground (arith, p))
]

-- Merging in a registry in order of its keys reports exactly the keys for which both registries
-- hold a hash and the hashes differ, with both hashes.
pub conflicts_iff :
    (local remote : NonceRegistry)
    → IsSorted remote
    → (c : NonceConflict)
    → Memᴰ c (merge_nonce_registries local remote).1 ↔ IsConflict local remote c
unfolding merge_nonce_registries
conflicts_iff local [] s c = (λ m. elim m [ ], λ p. absurd (empty_lem local c p))
conflicts_iff local ((k, h) ∷ remote) s c = elim (Option-cases (lookup k local)) [
  | inl new ↦
      let r = conflicts_iff (insert k h local) remote s.1 c in
      let i = inserted_iff k h local remote c s.0 new in
      rw (merge_nonce_registries, new) ((λ m. i.0 (r.0 m)), (λ p. r.1 (i.1 p)))
  | inr (l, old) ↦
      let r = conflicts_iff local remote s.1 c in
      elim (Bool-cases (eqb l h)) [
        | inl same ↦
            let i = same_iff k l h local remote c s.0 old ((eqb_iff l h).0 same) in
            rw (merge_nonce_registries, old, same) ((λ m. i.0 (r.0 m)), (λ p. r.1 (i.1 p)))
        | inr other ↦
            rw (merge_nonce_registries, old, other)
              (
                (λ m. elim m [
                  | Memᴰ.head e ↦
                      first_sound k l h local remote c old (λ e. cc ((eqb_iff l h).1 e, other)) e
                  | Memᴰ.tail t ↦ later_sound k l h local remote c s.0 (r.0 t)
                ]),
                (λ p. elim (first_complete k l h local remote c old p) [
                  | inl e ↦ Memᴰ.head e
                  | inr q ↦ Memᴰ.tail (r.1 q)
                ]),
              )
      ]
]

-- No key is lost.
pub contains-merge :
    (k : NonceKey) (local remote : NonceRegistry)
    → contains_key k local ≡ true
    → contains_key k (merge_nonce_registries local remote).0 ≡ true
unfolding merge_nonce_registries
contains-merge k local [] h = h
contains-merge k local ((j, r) ∷ remote) h = ground (
  arith,
  contains-merge k local remote h,
  contains-merge k (insert j r local) remote,
  lookup-insert k j r local,
)
