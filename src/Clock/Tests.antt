-- ===== src/Clock/Tests.antt =====
-- Two clocks, one before the other.
use arxia.Prelude.{ℕ, ◌≡◌, ◌↔◌, true, refl, [], ◌∷◌}
use arxia.Prelude.Ord.{Str, cmp_str}
use arxia.Prelude.Map.{Map}
use arxia.Clock.{happened_before}
use arxia.Clock.Causality.{AtMost, SomeBelow, happened_before_iff}

abbrev early : Map Str ℕ
early = ((1 ∷ []), 2) ∷ []

abbrev late : Map Str ℕ
late = ((1 ∷ []), 2) ∷ ((2 ∷ []), 1) ∷ []

happened_before_iff_example :
    (happened_before early late ≡ true) ↔ (AtMost early late × SomeBelow early late)
unfolding cmp_str
happened_before_iff_example = happened_before_iff early late (tt, tt) ((refl, tt), (tt, tt))
