-- ===== src/Health.antt =====
-- src/health-monitor.ts: the counters of turns, the last log lines and the last durations that the
-- daemon reports of itself. `Date.now()` is an argument; a duration or a round trip is whole and not
-- negative. The snapshot's readings of the platform and its percentiles are not modelled.
mod Totals
mod Examples
use Prim.Native.String.{String}
use the_dudes_daemon.Base.{
  ℕ, suc, ◌+◌, Bool, true, false, Option, none, some, List, [], ◌∷◌, ◌++◌, max, min, keep_last,
  length, drop, ◌-◌, lookup, insert, comparable_string,
}

pub data Level : Type 0 where
  info warn error : Level

pub record LogLine : Type 0 where
  pub ts : ℕ
  pub level : Level
  pub msg : String

pub record TurnCounters : Type 0 where
  pub started : ℕ
  pub ok : ℕ
  pub failed : ℕ
  pub hard_recovers : ℕ
  pub hard_recovers_notified : ℕ
  pub hangs : ℕ

abbrev pub log_cap : ℕ
log_cap = 600

abbrev pub duration_cap : ℕ
duration_cap = 200

-- The variables of the module.
pub record Monitor : Type 0 where
  pub ring : List LogLine
  pub durations : List ℕ
  pub ws_rtt_ms : Option ℕ
  pub total : TurnCounters
  pub by_runner : List (String × TurnCounters)

abbrev pub no_turns : TurnCounters
no_turns = record {
  started = 0;
  ok = 0;
  failed = 0;
  hard_recovers = 0;
  hard_recovers_notified = 0;
  hangs = 0;
}

pub create : Monitor
create = record { ring = []; durations = []; ws_rtt_ms = none; total = no_turns; by_runner = [] }

abbrev or_zero : Option TurnCounters → TurnCounters
or_zero none = no_turns
or_zero (some c) = c

-- `counters(runner)`: the runner's counters, which are new if there are none.
abbrev counters : String → Monitor → TurnCounters
counters runner h = or_zero (lookup runner h.by_runner)

-- The names of the counters, and `c.x++` for each.
pub data Counter : Type 0 where
  starting succeeding failing recovering notifying hanging : Counter

abbrev pub increment : Counter → TurnCounters → TurnCounters
increment starting c = record c { started = suc c.started }
increment succeeding c = record c { ok = suc c.ok }
increment failing c = record c { failed = suc c.failed }
increment recovering c = record c { hard_recovers = suc c.hard_recovers }
increment notifying c = record c { hard_recovers_notified = suc c.hard_recovers_notified }
increment hanging c = record c { hangs = suc c.hangs }

-- `total.x++` and `counters(runner).x++`.
abbrev bump : Counter → String → Monitor → Monitor
bump k runner h = record h {
  total = increment k h.total;
  by_runner = insert runner (increment k (counters runner h)) h.by_runner;
}

pub record_log : Level → String → ℕ → Monitor → Monitor
record_log level msg now h = record h {
  ring = keep_last log_cap (h.ring ++ record { ts = now; level = level; msg = msg } ∷ []);
}

pub recent_logs : ℕ → Monitor → List LogLine
recent_logs limit h = keep_last (max 1 (min log_cap limit)) h.ring

pub record_turn_start : String → Monitor → Monitor
record_turn_start runner h = bump starting runner h

abbrev keep_duration : ℕ → Monitor → Monitor
keep_duration ms h = record h { durations = keep_last duration_cap (h.durations ++ ms ∷ []) }

pub record_turn_end : String → ℕ → Bool → Monitor → Monitor
record_turn_end runner ms true h = keep_duration ms (bump succeeding runner h)
record_turn_end runner ms false h = keep_duration ms (bump failing runner h)

pub record_hang : String → Monitor → Monitor
record_hang runner h = bump hanging runner h

pub record_hard_recover : String → Monitor → Monitor
record_hard_recover runner h = bump recovering runner h

pub record_hard_recover_notified : String → Monitor → Monitor
record_hard_recover_notified runner h = bump notifying runner h

pub record_ws_rtt : ℕ → Monitor → Monitor
record_ws_rtt ms h = record h { ws_rtt_ms = some ms }

pub data Event : Type 0 where
  logs : Level → String → Event
  starts hangs recovers notifies : String → Event
  ends : String → ℕ → Bool → Event
  pongs : ℕ → Event

pub step : Monitor → ℕ × Event → Monitor
step h (now, logs level msg) = record_log level msg now h
step h (now, starts runner) = record_turn_start runner h
step h (now, hangs runner) = record_hang runner h
step h (now, recovers runner) = record_hard_recover runner h
step h (now, notifies runner) = record_hard_recover_notified runner h
step h (now, ends runner ms ok) = record_turn_end runner ms ok h
step h (now, pongs ms) = record_ws_rtt ms h

pub run : Monitor → List (ℕ × Event) → Monitor
run h [] = h
run h (e ∷ es) = run (step h e) es
