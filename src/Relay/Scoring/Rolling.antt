-- ===== src/Relay/Scoring/Rolling.antt =====
-- The rolling score does not depend on when old events were dropped.
use arxia.Prelude.{ℕ, ◌-◌, ◌≤◌, ◌≡◌, refl, List, [], ◌∷◌, arith}
use arxia.Prelude.Int.{ℤ}
use arxia.Relay.Scoring.{
  RelayScore, rolling_window_ms, drop_before, prune_rolling, sum_since, rolling_score,
}

sum_since-drop_before :
    (cut now : ℕ) (t : ℤ) (events : List (ℕ × ℤ))
    → cut ≤ now
    → sum_since now t (drop_before cut events) ≡ sum_since now t events
unfolding sum_since drop_before
sum_since-drop_before cut now t [] le = refl
sum_since-drop_before cut now t ((at, d) ∷ events) le =
    ground (arith, sum_since-drop_before cut now t events le)

-- Dropping the events that are older than the window at one time changes no rolling score at that time
-- or later, whatever the order of the events.
pub rolling_score-prune_rolling :
    (s : RelayScore) (now_ms later_ms : ℕ)
    → now_ms ≤ later_ms
    → rolling_score (prune_rolling s now_ms) later_ms ≡ rolling_score s later_ms
unfolding rolling_score prune_rolling
rolling_score-prune_rolling s now_ms later_ms le =
    rw
      (sum_since-drop_before (now_ms - rolling_window_ms) (later_ms - rolling_window_ms) _
        s.rolling_events (omega arith))
      refl
