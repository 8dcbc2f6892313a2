-- ===== src/SelfUpdate/Single.antt =====
-- No two checks run at once.
use the_dudes_daemon.Base.{ℕ, ◌+◌, ◌≡◌, Bool, true, false, List, [], ◌∷◌, arith}
use the_dudes_daemon.SelfUpdate.{
  UpdateGate, create, trigger, finish, Event, triggers, finishes, step, run,
}

abbrev running : Bool → ℕ
running true = 1
running false = 0

step_single :
    (g : UpdateGate) (e : Event)
    → g.begun ≡ g.ended + running g.in_flight
    → (step g e).begun ≡ (step g e).ended + running (step g e).in_flight
unfolding step trigger finish
step_single g (triggers true) h = ground arith
step_single g (triggers false) h = h
step_single g finishes h = ground arith

run_single :
    (g : UpdateGate) (es : List Event)
    → g.begun ≡ g.ended + running g.in_flight
    → (run g es).begun ≡ (run g es).ended + running (run g es).in_flight
unfolding run
run_single g [] h = h
run_single g (e ∷ es) h = run_single (step g e) es (step_single g e h)

-- However the pushes and the timer come, the checks that have begun are those that have ended and,
-- where the gate is in flight, one more.
pub run-create :
    (es : List Event)
    → (run create es).begun ≡ (run create es).ended + running (run create es).in_flight
unfolding create
run-create es = run_single create es (omega arith)
