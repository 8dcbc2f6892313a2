-- ===== src/Watchdog.antt =====
-- src/runners/turn-watchdog.ts: when a turn counts as hung. `Date.now()` is the argument `now`; the
-- elapsed times `now - t` are compared as `t + limit ≤ now`.
mod Phases
mod Lifetime
mod Examples
use Prim.Native.String.{String}
use the_dudes_daemon.Base.{
  ℕ, zero, suc, ◌+◌, ◌*◌, ◌≤◌, Bool, true, false, not, ◌&&◌, ◌||◌, Option, none, some, List, [],
  ◌∷◌, leb, ltb, max, if◌then◌else◌, comparable_string, ◌==◌,
}
use the_dudes_daemon.Limits.{qwen_turn_lifetime_ms, qwen_turn_lifetime_cap_ms}

pub data HangPhase : Type 0 where
  fine soft hard : HangPhase

pub record HangThresholds : Type 0 where
  pub soft_ms : ℕ
  pub hard_ms : ℕ
  pub dead_proc_ms : ℕ
  pub tools_hard_ms : ℕ
  pub lifetime_ms : Option ℕ
  pub lifetime_cap_ms : Option ℕ
  pub first_event_ms : Option ℕ
  pub post_event_ms : Option ℕ

abbrev minutes : ℕ → ℕ
minutes n = n * 60000

abbrev plain : ℕ → ℕ → ℕ → ℕ → HangThresholds
plain soft_ms hard_ms dead_proc_ms tools_hard_ms = record {
  soft_ms = soft_ms;
  hard_ms = hard_ms;
  dead_proc_ms = dead_proc_ms;
  tools_hard_ms = tools_hard_ms;
  lifetime_ms = none;
  lifetime_cap_ms = none;
  first_event_ms = none;
  post_event_ms = none;
}

-- `isGrokFamily` of src/runners/index.ts; a runner that is not given is `none`.
abbrev pub is_runner : String → Option String → Bool
is_runner name none = false
is_runner name (some runner) = runner == name

pub is_grok_family : Option String → Bool
is_grok_family runner = is_runner "grok" runner || is_runner "grok-custom" runner

pub hang_thresholds : Option String → HangThresholds
unfolding is_grok_family
hang_thresholds runner =
    if is_grok_family runner
    then record (plain (minutes 3) 120000 12000 (minutes 10)) {
      first_event_ms = some (minutes 5);
      post_event_ms = some (minutes 5);
    }
    else if is_runner "opencode" runner
    then plain 180000 (minutes 10) 20000 (minutes 20)
    else if is_runner "claude" runner
    then plain (minutes 12) (minutes 25) 20000 (minutes 20)
    else if is_runner "qwen" runner
    then record (plain (minutes 6) (minutes 10) 20000 (minutes 20)) {
      lifetime_ms = some qwen_turn_lifetime_ms;
      lifetime_cap_ms = some qwen_turn_lifetime_cap_ms;
    }
    else if is_runner "dsh" runner
    then record (plain (minutes 3) (minutes 6) 15000 (minutes 15)) {
      first_event_ms = some (minutes 5);
    }
    else plain (minutes 5) (minutes 12) 20000 (minutes 20)

-- `declared != null ? Math.max(base, declared) : base`
abbrev pub raised : ℕ → Option ℕ → ℕ
raised base none = base
raised base (some declared) = max base declared

pub effective_hard_ms : HangThresholds → Bool → ℕ
effective_hard_ms t true = raised t.hard_ms t.first_event_ms
effective_hard_ms t false = raised t.hard_ms t.post_event_ms

abbrev pub effective_soft_ms : HangThresholds → Bool → ℕ
effective_soft_ms t true = raised t.soft_ms t.first_event_ms
effective_soft_ms t false = t.soft_ms

pub hang_phase : ℕ → HangThresholds → Bool → HangPhase
unfolding effective_hard_ms
hang_phase idle_ms t cold_start =
    if leb (effective_hard_ms t cold_start) idle_ms
    then hard
    else if leb (effective_soft_ms t cold_start) idle_ms
    then soft
    else fine

pub tools_in_flight_hard_due : ℕ → HangThresholds → Bool
tools_in_flight_hard_due tools_age_ms t = leb t.tools_hard_ms tools_age_ms

abbrev or_grok : Option String → Option String
or_grok none = some "grok"
or_grok (some runner) = some runner

abbrev pub or_hard : Option ℕ → ℕ → ℕ
or_hard none hard_ms = hard_ms
or_hard (some ms) hard_ms = ms

pub grok_absolute_timeout_should_kill : ℕ → ℕ → ℕ → Option String → Bool
unfolding tools_in_flight_hard_due
grok_absolute_timeout_should_kill idle_ms tools_in_flight tools_age_ms runner =
    let t = hang_thresholds (or_grok runner) in
    if ltb idle_ms (or_hard t.post_event_ms t.hard_ms)
    then false
    else if ltb 0 tools_in_flight && not (tools_in_flight_hard_due tools_age_ms t)
    then false
    else true

abbrev hard_recover_summary_threshold : ℕ
hard_recover_summary_threshold = 3

pub data HardRecoverNotify : Type 0 where
  suppress summary immediate : HardRecoverNotify

pub data HardRecoverKind : Type 0 where
  hang lifetime : HardRecoverKind

abbrev is_lifetime : HardRecoverKind → Bool
is_lifetime hang = false
is_lifetime lifetime = true

pub hard_recover_notify_policy : ℕ → ℕ → HardRecoverKind → HardRecoverNotify
hard_recover_notify_policy attempt events_in_last_hour kind =
    if leb 1 attempt
    then immediate
    else if is_lifetime kind
    then suppress
    else if leb hard_recover_summary_threshold events_in_last_hour
    then summary
    else suppress

pub record TurnActivityClock : Type 0 where
  pub last_activity_at : ℕ
  pub soft_reported : Bool
  pub dead_since : Option ℕ
  pub turn_started_at : ℕ
  pub first_event_at : Option ℕ

pub create_activity_clock : ℕ → TurnActivityClock
create_activity_clock now = record {
  last_activity_at = now;
  soft_reported = false;
  dead_since = none;
  turn_started_at = now;
  first_event_at = none;
}

abbrev or_now : Option ℕ → ℕ → Option ℕ
or_now none now = some now
or_now (some at) now = some at

pub touch_activity_clock : ℕ → TurnActivityClock → TurnActivityClock
touch_activity_clock now clock = record clock {
  last_activity_at = now;
  soft_reported = false;
  dead_since = none;
  first_event_at = or_now clock.first_event_at now;
}

pub mark_turn_start : ℕ → TurnActivityClock → TurnActivityClock
mark_turn_start now clock = record clock { turn_started_at = now; first_event_at = none }

pub data LifetimeExceeded : Type 0 where
  progress cap : LifetimeExceeded

-- `limit != null && now - since >= limit`
abbrev pub is_over : Option ℕ → ℕ → ℕ → Bool
is_over none since now = false
is_over (some limit) since now = leb (since + limit) now

pub turn_lifetime_exceeded : TurnActivityClock → HangThresholds → ℕ → Option LifetimeExceeded
turn_lifetime_exceeded clock t now =
    if is_over t.lifetime_cap_ms clock.turn_started_at now
    then some cap
    else if is_over t.lifetime_ms clock.last_activity_at now
    then some progress
    else none

abbrev is_some {ℓ} : {A : Type ℓ} → Option A → Bool
is_some none = false
is_some (some a) = true

pub turn_lifetime_due : TurnActivityClock → HangThresholds → ℕ → Bool
unfolding turn_lifetime_exceeded
turn_lifetime_due clock t now = is_some (turn_lifetime_exceeded clock t now)

pub tools_in_flight_blocks_hang : ℕ → ℕ → ℕ → Bool
tools_in_flight_blocks_hang tools_in_flight tools_age_ms max_ms =
    ltb 0 tools_in_flight && ltb tools_age_ms max_ms

-- The events of a turn that is under way, at the times given.
pub touches : List ℕ → TurnActivityClock → TurnActivityClock
touches [] clock = clock
touches (now ∷ times) clock = touches times (touch_activity_clock now clock)
