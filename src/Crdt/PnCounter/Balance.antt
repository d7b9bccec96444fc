-- ===== src/Crdt/PnCounter/Balance.antt =====
-- The value of a counter is the sum of the increments less that of the decrements.
use arxia.Prelude.{ℕ, ◌+◌, ◌-◌, false, ◌≤◌, ◌≡◌, List, [], ◌∷◌, arith, refl}
use arxia.Prelude.Ord.{Str, str_ord}
use arxia.Prelude.Int.{pos, neg, is_negative, diff, i64_max}
use arxia.Prelude.Words.{saturating_add, u64_max}
use arxia.Prelude.Map.{Map, IsSorted}
use arxia.Prelude.Map.Sums.{
  fold_values, fold_values-sum_values, sum_values, sum_values-insert, or_zero_le,
}
use arxia.Prelude.Map.Laws.{insert-IsSorted}
use arxia.Clock.{count_of}
use arxia.Crdt.PnCounter.{PnCounter, new, bump, increment, decrement, signed_difference, value}
use arxia.Crdt.PnCounter.Convergence.{IsValid}

pub data Op : Type 0 where
  inc dec : Str → ℕ → Op

step : Op → PnCounter → PnCounter
step (inc node_id amount) c = increment node_id amount c
step (dec node_id amount) c = decrement node_id amount c

pub run : List Op → PnCounter → PnCounter
run [] c = c
run (op ∷ ops) c = run ops (step op c)

unfoldable pub incremented : List Op → ℕ
incremented [] = 0
incremented (inc _ amount ∷ ops) = amount + incremented ops
incremented (dec _ _ ∷ ops) = incremented ops

unfoldable pub decremented : List Op → ℕ
decremented [] = 0
decremented (inc _ _ ∷ ops) = decremented ops
decremented (dec _ amount ∷ ops) = amount + decremented ops

step-IsValid : (op : Op) (c : PnCounter) → IsValid c → IsValid (step op c)
unfolding step
step-IsValid (inc k a) c v = (insert-IsSorted k (saturating_add (count_of k c.p) a) c.p v.0, v.1)
step-IsValid (dec k a) c v = (v.0, insert-IsSorted k (saturating_add (count_of k c.n) a) c.n v.1)

pub sum_values-bump :
    (k : Str) (a : ℕ) (m : Map Str ℕ)
    → IsSorted m
    → sum_values m + a ≤ u64_max
    → sum_values (bump k a m) ≡ sum_values m + a
sum_values-bump k a m s le =
    ground (arith, sum_values-insert k (saturating_add (count_of k m) a) m s, or_zero_le k m)

run-sum_values :
    (ops : List Op) (c : PnCounter)
    → IsValid c
    → sum_values c.p + incremented ops ≤ u64_max
    → sum_values c.n + decremented ops ≤ u64_max
    → (sum_values (run ops c).p ≡ sum_values c.p + incremented ops)
      × (sum_values (run ops c).n ≡ sum_values c.n + decremented ops)
unfolding run incremented decremented step
run-sum_values [] c v p n = (omega arith, omega arith)
run-sum_values (inc k a ∷ ops) c v p n =
    let e = sum_values-bump k a c.p v.0 (omega arith) in
    let r =
      run-sum_values ops (increment k a c) (step-IsValid (inc k a) c v) (omega (arith, e)) n in
    (omega (arith, r.0, e), r.1)
run-sum_values (dec k a ∷ ops) c v p n =
    let e = sum_values-bump k a c.n v.1 (omega arith) in
    let r =
      run-sum_values ops (decrement k a c) (step-IsValid (dec k a) c v) p (omega (arith, e)) in
    (r.0, omega (arith, r.1, e))

signed_difference-diff :
    (p n : ℕ) → p ≤ n + i64_max → n ≤ p + i64_max → signed_difference p n ≡ diff p n
unfolding signed_difference diff
signed_difference-diff p n a b = ground arith

-- After any increments and decrements of a new counter by any nodes, its value is the sum of the
-- increments less that of the decrements, where neither sum passes 2^64 - 1 and the difference
-- is within 2^63 - 1 on either side.
pub value-run :
    (ops : List Op)
    → incremented ops ≤ u64_max
    → decremented ops ≤ u64_max
    → incremented ops ≤ decremented ops + i64_max
    → decremented ops ≤ incremented ops + i64_max
    → value (run ops new) ≡ diff (incremented ops) (decremented ops)
unfolding value new sum_values
value-run ops p n a b =
    let zero : sum_values {K = Str} [] ≡ 0 = refl in
    let r = run-sum_values ops new (tt, tt) (omega (arith, zero)) (omega (arith, zero)) in
    let fp = fold_values-sum_values 0 (run ops new).p (omega (arith, r.0, p, zero)) in
    let fn = fold_values-sum_values 0 (run ops new).n (omega (arith, r.1, n, zero)) in
    let tp : fold_values 0 (run ops new).p ≡ incremented ops = omega (arith, fp, r.0, zero) in
    let tn : fold_values 0 (run ops new).n ≡ decremented ops = omega (arith, fn, r.1, zero) in
    rw (tp, tn) (signed_difference-diff (incremented ops) (decremented ops) a b)

signed_difference_nonnegative :
    (up down : ℕ)
    → up ≤ i64_max
    → down ≤ i64_max
    → is_negative (signed_difference up down) ≡ false
    → (signed_difference up down ≡ pos (up - down)) × (down ≤ up)
unfolding signed_difference neg
signed_difference_nonnegative up down le le' h = ground arith

pub value_nonnegative :
    (c : PnCounter)
    → sum_values c.p ≤ i64_max
    → sum_values c.n ≤ i64_max
    → is_negative (value c) ≡ false
    → (value c ≡ pos (sum_values c.p - sum_values c.n)) × (sum_values c.n ≤ sum_values c.p)
unfolding value
value_nonnegative c le le' h = ground (
  arith,
  fold_values-sum_values 0 c.p,
  fold_values-sum_values 0 c.n,
  signed_difference_nonnegative (sum_values c.p) (sum_values c.n),
)

pub new_empty : (sum_values new.p ≡ 0) × (sum_values new.n ≡ 0)
unfolding new sum_values
new_empty = (refl, refl)

pub new-IsValid : IsValid new
unfolding new
new-IsValid = (tt, tt)

pub value_inc_dec :
    (k : Str) (m n : ℕ)
    → n ≤ m
    → m ≤ i64_max
    → value (decrement k n (increment k m new)) ≡ pos (m - n)
unfolding run step incremented decremented diff
value_inc_dec k m n h le = ground (arith, value-run (inc k m ∷ dec k n ∷ []))

pub value_inc_inc :
    (k : Str) (m n : ℕ) → m + n ≤ i64_max → value (increment k n (increment k m new)) ≡ pos (m + n)
unfolding run step incremented decremented diff
value_inc_inc k m n le = ground (arith, value-run (inc k m ∷ inc k n ∷ []))
