-- ===== src/Transport/Reassembly/Slots.antt =====
-- The slots of a message that is not complete yet.
use arxia.Prelude.{
  ℕ, zero, suc, ◌≤◌, ◌≡◌, refl, ap, Option, none, some, List, [], ◌∷◌, ◌++◌, map, length, get_elem?,
  set, replicate, arith,
}
use arxia.Prelude.Words.{Bytes}
use arxia.Transport.Reassembly.{concat_slots}

abbrev pub filled_slots : List (Option Bytes) → ℕ
filled_slots [] = 0
filled_slots (none ∷ slots) = filled_slots slots
filled_slots (some b ∷ slots) = suc (filled_slots slots)

abbrev pub concat : List Bytes → Bytes
concat [] = []
concat (b ∷ bs) = b ++ concat bs

pub filled_le : (slots : List (Option Bytes)) → filled_slots slots ≤ length slots
filled_le [] = omega arith
filled_le (none ∷ slots) = omega (arith, filled_le slots)
filled_le (some b ∷ slots) = omega (arith, filled_le slots)

pub filled_slots-replicate : (n : ℕ) → filled_slots (replicate n none) ≡ 0
filled_slots-replicate zero = refl
filled_slots-replicate (suc n) = filled_slots-replicate n

pub filled_slots-set :
    (slots : List (Option Bytes)) (i : ℕ) (b : Bytes)
    → get_elem? slots i ≡ some none
    → filled_slots (set slots i (some b)) ≡ suc (filled_slots slots)
filled_slots-set [] i b h = cc
filled_slots-set (none ∷ slots) zero b h = refl
filled_slots-set (some x ∷ slots) zero b h = cc
filled_slots-set (none ∷ slots) (suc i) b h = filled_slots-set slots i b h
filled_slots-set (some x ∷ slots) (suc i) b h = ap suc (filled_slots-set slots i b h)

pub get_elem?-replicate-none :
    (n i : ℕ) (b : Bytes) → get_elem? (replicate n none) i ≡ some (some b) → ⊥
get_elem?-replicate-none zero i b h = cc
get_elem?-replicate-none (suc n) zero b h = cc
get_elem?-replicate-none (suc n) (suc i) b h = get_elem?-replicate-none n i b h

pub get_elem?-replicate :
    (n i : ℕ) → suc i ≤ n → get_elem? (replicate n (let e : Option Bytes = none in e)) i ≡ some none
get_elem?-replicate zero i h = absurd (omega arith)
get_elem?-replicate (suc n) zero h = refl
get_elem?-replicate (suc n) (suc i) h = get_elem?-replicate n i (omega arith)

-- A slot that is read back after a write was written, or was there before.
pub data Written (slots : List (Option Bytes)) (i : ℕ) (v : Bytes) (j : ℕ) (b : Bytes)
    : Type 0 where
  by_this : j ≡ i → b ≡ v → Written slots i v j b
  before : get_elem? slots j ≡ some (some b) → Written slots i v j b

pub written :
    (slots : List (Option Bytes)) (i : ℕ) (v : Bytes) (j : ℕ) (b : Bytes)
    → get_elem? (set slots i (some v)) j ≡ some (some b)
    → Written slots i v j b
written [] i v j b h = cc
written (x ∷ slots) zero v zero b h = by_this refl (cc)
written (x ∷ slots) zero v (suc j) b h = before h
written (x ∷ slots) (suc i) v zero b h = before h
written (x ∷ slots) (suc i) v (suc j) b h = elim (written slots i v j b h) [
  | by_this e p ↦ by_this (ap suc e) p
  | before e ↦ before e
]

pub get_elem?-some :
    {A : Type 0} (xs : List A) (i : ℕ) → suc i ≤ length xs → (x : A) × (get_elem? xs i ≡ some x)
get_elem?-some [] i h = absurd (omega arith)
get_elem?-some (x ∷ xs) zero h = (x, refl)
get_elem?-some (x ∷ xs) (suc i) h = get_elem?-some xs i (omega arith)

-- Where every slot is filled the slots are the payloads.
pub all_filled :
    (slots : List (Option Bytes))
    → filled_slots slots ≡ length slots
    → (payloads : List Bytes) × (slots ≡ map some payloads)
all_filled [] h = ([], refl)
all_filled (none ∷ slots) h = absurd (omega (arith, filled_le slots))
all_filled (some b ∷ slots) h =
    let (ps, e) = all_filled slots (omega arith) in (b ∷ ps, ap (λ s. some b ∷ s) e)

pub concat_slots-map : (payloads : List Bytes) → concat_slots (map some payloads) ≡ concat payloads
unfolding concat_slots
concat_slots-map [] = refl
concat_slots-map (b ∷ bs) = ap (λ s. b ++ s) (concat_slots-map bs)

pub length-map-some :
    (payloads : List Bytes)
    → length (map (let f : Bytes → Option Bytes = some in f) payloads) ≡ length payloads
length-map-some [] = refl
length-map-some (b ∷ bs) = ap suc (length-map-some bs)

pub get_elem?-map-some :
    (payloads : List Bytes) (i : ℕ) (b : Bytes)
    → get_elem? payloads i ≡ some b
    → get_elem? (map (let f : Bytes → Option Bytes = some in f) payloads) i ≡ some (some b)
get_elem?-map-some [] i b h = cc
get_elem?-map-some (x ∷ bs) zero b h = cc
get_elem?-map-some (x ∷ bs) (suc i) b h = get_elem?-map-some bs i b h
