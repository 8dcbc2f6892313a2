-- ===== src/Watchdog/Lifetime.antt =====
-- The two ceilings of a turn's lifetime under activity, and the protection of tools in flight.
use Prim.Native.String.{String}
use the_dudes_daemon.Base.{
  ℕ, ◌+◌, ◌≤◌, ◌<◌, ◌≡◌, ◌↔◌, refl, true, false, Option, none, some, List, [], ◌∷◌, arith,
}
use the_dudes_daemon.Watchdog.{
  HangThresholds, hang_thresholds, or_grok, or_hard, grok_absolute_timeout_should_kill,
  TurnActivityClock, touch_activity_clock, mark_turn_start, progress, cap, turn_lifetime_exceeded,
  tools_in_flight_blocks_hang, touches,
}

turn_started_at-touches :
    (times : List ℕ) (clock : TurnActivityClock)
    → (touches times clock).turn_started_at ≡ clock.turn_started_at
unfolding touches touch_activity_clock
turn_started_at-touches [] clock = refl
turn_started_at-touches (now ∷ times) clock =
    turn_started_at-touches times (touch_activity_clock now clock)

-- A runner with both ceilings: whatever events a turn emits, it is cut for its age exactly from
-- `lifetimeCapMs` after its start, and for lack of progress exactly from `lifetimeMs` after its last
-- event, if that is before the other. Events renew the second and never the first.
pub turn_lifetime_exceeded-touches :
    (clock : TurnActivityClock) (times : List ℕ) (last now window most : ℕ) (t : HangThresholds)
    → t.lifetime_ms ≡ some window
    → t.lifetime_cap_ms ≡ some most
    → let c = touch_activity_clock last (touches times clock) in
      ((turn_lifetime_exceeded c t now ≡ some cap) ↔ (clock.turn_started_at + most ≤ now))
      × ((turn_lifetime_exceeded c t now ≡ some progress)
          ↔ ((now < clock.turn_started_at + most) × (last + window ≤ now)))
unfolding turn_lifetime_exceeded touch_activity_clock
turn_lifetime_exceeded-touches clock times last now window most t w m =
    ground (arith, turn_started_at-touches times clock)

first_event_at-touches :
    (times : List ℕ) (at : ℕ) (clock : TurnActivityClock)
    → clock.first_event_at ≡ some at
    → (touches times clock).first_event_at ≡ some at
unfolding touches touch_activity_clock
first_event_at-touches [] at clock h = h
first_event_at-touches (now ∷ times) at clock h =
    first_event_at-touches times at (touch_activity_clock now clock) (ground arith)

-- The first event of a turn closes its cold start for good: no later event moves the mark.
pub first_event_at-mark_turn_start :
    (started first : ℕ) (times : List ℕ) (clock : TurnActivityClock)
    → ((mark_turn_start started clock).first_event_at ≡ none)
      × ((touches (first ∷ times) (mark_turn_start started clock)).first_event_at ≡ some first)
unfolding mark_turn_start touches
first_event_at-mark_turn_start started first times clock =
    (refl, first_event_at-touches times first _ (unfold touch_activity_clock in refl))

-- The absolute timeout kills a turn exactly when it has been silent for the grace time of its runner
-- and no tool in flight is still protected from the hang watch.
pub grok_absolute_timeout_iff :
    (idle tools age : ℕ) (runner : Option String)
    → let t = hang_thresholds (or_grok runner) in
      (grok_absolute_timeout_should_kill idle tools age runner ≡ true) ↔ (
        (or_hard t.post_event_ms t.hard_ms ≤ idle)
        × (tools_in_flight_blocks_hang tools age t.tools_hard_ms ≡ false))
unfolding grok_absolute_timeout_should_kill tools_in_flight_blocks_hang
grok_absolute_timeout_iff idle tools age runner =
    let t = hang_thresholds (or_grok runner) in ground arith
