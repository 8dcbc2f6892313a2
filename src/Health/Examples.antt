-- ===== src/Health/Examples.antt =====
-- Tests and witnesses of the health monitor.
use the_dudes_daemon.Base.{ℕ, ◌≡◌, refl, true, false, List, [], ◌∷◌}
use the_dudes_daemon.Health.{
  warn, create, recent_logs, record_log, record_turn_start, record_turn_end, record_hang, Event,
  logs, starts, hangs, ends, step, run,
}

opened : Unit {0}
unfolding create recent_logs record_log record_turn_start record_turn_end record_hang step run
opened = tt

abbrev day : List (ℕ × Event)
day =
    (1, starts "qwen")
    ∷ (2, starts "grok")
    ∷ (3, ends "qwen" 2 true)
    ∷ (4, hangs "grok")
    ∷ (5, logs warn "hang")
    ∷ (6, ends "grok" 4 false)
    ∷ (7, starts "qwen")
    ∷ []

monitor_tests :
    ((run create day).total.started ≡ 3)
    × ((run create day).total.hangs ≡ 1)
    × ((run create day).durations ≡ 2 ∷ 4 ∷ [])
    × (recent_logs 0 (run create day) ≡ record { ts = 5; level = warn; msg = "hang" } ∷ [])
unfolding opened
monitor_tests = (refl, refl, refl, refl)
