-- ===== src/Gate/Examples.antt =====
-- Tests and witnesses of the turn gate: one slot in the main pool, and three requests for it.
use the_dudes_daemon.Base.{ℕ, ◌≡◌, refl, false, some, List, [], ◌∷◌, ◌++◌}
use the_dudes_daemon.Limits.{max_hold_ms}
use the_dudes_daemon.Gate.{
  main, Waiter, Slot, Gate, Event, acquires, new_slot, init, find, free, release, timeout, step,
  run, acquire_turn_slot, count_grant,
}
use the_dudes_daemon.Gate.Invariant.{IsValid, run-init-IsValid}
use the_dudes_daemon.Gate.Fairness.{release-release, release-fila}

opened : Unit {0}
unfolding run step find max_hold_ms init timeout acquire_turn_slot count_grant
opened = tt

abbrev requests : List (ℕ × Event)
requests = (10, acquires "a" main) ∷ (20, acquires "b" main) ∷ (30, acquires "c" main) ∷ []

abbrev crowded : Gate
crowded = run (init 1 2) requests

abbrev first : Slot
first = record { id = 1; pool = main; liberado = false; guarda = 7500010 }

abbrev second : Waiter
second = record { id = 2; label = "b"; pedido_em = 20 }

abbrev third : Waiter
third = record { id = 3; label = "c"; pedido_em = 30 }

crowded_state :
    (find 1 crowded.slots ≡ some first) × ((crowded.pools main).fila ≡ second ∷ third ∷ [])
unfolding opened
crowded_state = (refl, refl)

-- The valve frees a slot that is never released, and the next request gets it.
forced_release :
    let g = timeout 1 7500010 crowded in
    ((g.stats main).forced ≡ 1) × ((g.pools main).fila ≡ third ∷ []) × ((g.stats main).waited ≡ 1)
unfolding opened
forced_release = (refl, refl, refl)

run-init-IsValid_example : IsValid main crowded
run-init-IsValid_example = run-init-IsValid 1 2 requests main

release-release_example : release 1 50 (release 1 40 crowded) ≡ release 1 40 crowded
release-release_example = release-release 1 40 50 crowded

release-fila_example :
    ((release 1 40 crowded).slots ≡ free 1 crowded.slots ++ new_slot main second 40 ∷ [])
    × (((release 1 40 crowded).pools main).fila ≡ third ∷ [])
    × (((release 1 40 crowded).pools main).ativos ≡ (crowded.pools main).ativos)
release-fila_example =
    release-fila 1 40 crowded first second (third ∷ []) (run-init-IsValid 1 2 requests main)
      crowded_state.0 refl crowded_state.1
