-- ===== src/Nudge/Examples.antt =====
-- Tests and witnesses of the nudge: three hard recovers in a row, and one after the window.
use the_dudes_daemon.Base.{ℕ, ◌≤◌, ◌≡◌, refl, true, List, [], ◌∷◌, arith, length, filter}
use the_dudes_daemon.Nudge.{
  default_budget, is_recent, plan_hang_recover_nudge, start, recover, recovers,
}
use the_dudes_daemon.Nudge.Window.{recovers-within}

opened : Unit {0}
unfolding plan_hang_recover_nudge start recover recovers
opened = tt

abbrev hangs : List (ℕ × ℕ)
hangs = (1000, 0) ∷ (2000, 0) ∷ (3000, 0) ∷ (4000, 2) ∷ (1801000, 0) ∷ []

recover_tests :
    ((recovers default_budget start hangs).log ≡ 1000 ∷ 2000 ∷ 1801000 ∷ [])
    × ((plan_hang_recover_nudge default_budget 0 3000 (1000 ∷ 2000 ∷ [])).notify ≡ true)
    × ((plan_hang_recover_nudge default_budget 0 2000 (1000 ∷ [])).backoff_ms ≡ 30000)
unfolding opened
recover_tests = (refl, refl, refl)

recovers-within_example :
    length (
      filter (is_recent default_budget.window_ms 1801000) (recovers default_budget start hangs).log)
    ≤ 2
unfolding opened
recovers-within_example = recovers-within default_budget hangs 1801000 (omega arith) (omega arith)
