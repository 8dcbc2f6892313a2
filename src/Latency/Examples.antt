-- ===== src/Latency/Examples.antt =====
-- A test of the timing of a turn.
use the_dudes_daemon.Base.{ℕ, ◌≡◌, refl, none, some, List, [], ◌∷◌}
use the_dudes_daemon.Latency.{
  text, thinking, completed, error, watchdog, hang, create, gate_start, gate_end, start, semantic,
  accept, report, finish, Call, gates, gated, starts, accepts, speaks, ends, step, run,
}

opened : Unit {0}
unfolding create gate_start gate_end start semantic accept report finish step run
opened = tt

abbrev before : List (ℕ × Call)
before =
    (10, speaks text)
    ∷ (11, gates)
    ∷ (14, gated)
    ∷ (15, starts)
    ∷ (16, accepts)
    ∷ (20, speaks thinking)
    ∷ (22, speaks text)
    ∷ []

abbrev after : List (ℕ × Call)
after = (31, speaks text) ∷ (32, ends error (some watchdog) (some hang)) ∷ []

turn_test :
    (finish completed none none 30 (run (create 0 10) before)).emitted
    ≡ record {
      attempt = 0;
      queue_ms = some 5;
      gate_wait_ms = some 3;
      first_event_ms = some 5;
      duration_ms = some 15;
      first_event_kind = some thinking;
      end_reason = completed;
      killed_by = none;
      recover_kind = none;
      lifetime_limit = none;
      accept_ms = some 1;
      session_mode = none;
      boot_ms = none;
    }
      ∷ []
unfolding opened
turn_test = refl
