-- ===== src/Latency.antt =====
-- src/runners/turn-latency.ts, `TurnTiming`: when a turn waited, started, spoke and ended. `now()` is
-- the argument `now` of each call, a whole number of milliseconds that never goes back. What `emit`
-- is given is recorded in `emitted`; the random id of the turn and the debug view are left out. Queue is
-- `TurnLatency`, which keeps a timing for each message that waits.
mod Once
mod Queue
mod Examples
use the_dudes_daemon.Base.{ℕ, ◌-◌, Bool, true, false, Option, none, some, List, [], ◌∷◌, ◌++◌}

pub data SemanticKind : Type 0 where
  text thinking tool : SemanticKind

pub data SessionMode : Type 0 where
  cold resume : SessionMode

pub data TurnEndReason : Type 0 where
  completed error process_exit spawn_error stopped cancelled reset retry hard_recover queue_cleared
        drained :
      TurnEndReason

pub data RecoverKind : Type 0 where
  hang lifetime : RecoverKind

pub data KilledBy : Type 0 where
  watchdog hard_timeout stop context_reset token_loop : KilledBy

pub data LifetimeLimit : Type 0 where
  cap progress : LifetimeLimit

pub record Report : Type 0 where
  pub attempt : ℕ
  pub queue_ms : Option ℕ
  pub gate_wait_ms : Option ℕ
  pub first_event_ms : Option ℕ
  pub duration_ms : Option ℕ
  pub first_event_kind : Option SemanticKind
  pub end_reason : TurnEndReason
  pub killed_by : Option KilledBy
  pub recover_kind : Option RecoverKind
  pub lifetime_limit : Option LifetimeLimit
  pub accept_ms : Option ℕ
  pub session_mode : Option SessionMode
  pub boot_ms : Option ℕ

pub record Timing : Type 0 where
  pub attempt : ℕ
  pub enqueued_at : ℕ
  pub started_at : Option ℕ
  pub first_at : Option ℕ
  pub first_kind : Option SemanticKind
  pub gate_at : Option ℕ
  pub gate_ms : Option ℕ
  pub boot_at : Option ℕ
  pub boot_ms : Option ℕ
  pub lifetime_limit : Option LifetimeLimit
  pub accept_at : Option ℕ
  pub ended : Bool
  pub session_mode : Option SessionMode
  pub emitted : List Report

pub create : ℕ → ℕ → Timing
create attempt now = record {
  attempt = attempt;
  enqueued_at = now;
  started_at = none;
  first_at = none;
  first_kind = none;
  gate_at = none;
  gate_ms = none;
  boot_at = none;
  boot_ms = none;
  lifetime_limit = none;
  accept_at = none;
  ended = false;
  session_mode = none;
  emitted = [];
}

-- `x === null ? null : to - x`
abbrev pub since : ℕ → Option ℕ → Option ℕ
since to none = none
since to (some at) = some (to - at)

-- `a === null || b === null ? null : a - b`
abbrev pub between : Option ℕ → Option ℕ → Option ℕ
between (some from) (some to) = some (to - from)
between _ _ = none

abbrev first_time : Option ℕ → ℕ → Option ℕ
first_time none now = some now
first_time (some at) now = some at

-- `if (!this.ended) ...`
abbrev alive : Timing → Timing → Timing
alive t t' = elim t.ended [ true ↦ t | false ↦ t' ]

pub gate_start : ℕ → Timing → Timing
gate_start now t = alive t (record t { gate_at = some now })

pub gate_end : ℕ → Timing → Timing
gate_end now t =
    alive t (elim t.gate_at [ none ↦ t | some at ↦ record t { gate_ms = some (now - at) } ])

pub start : ℕ → Timing → Timing
start now t = alive t (record t { started_at = first_time t.started_at now })

pub boot_start : ℕ → Timing → Timing
boot_start now t = alive t (record t { boot_at = some now })

pub boot_ready : ℕ → Timing → Timing
boot_ready now t =
    alive t (elim t.boot_at [
      | none ↦ t
      | some at ↦ record t { boot_ms = first_time t.boot_ms (now - at) }
    ])

pub set_boot_ms : ℕ → Timing → Timing
set_boot_ms ms t = alive t (record t { boot_ms = some ms })

pub set_lifetime_limit : LifetimeLimit → Timing → Timing
set_lifetime_limit limit t = alive t (record t { lifetime_limit = some limit })

pub semantic : SemanticKind → ℕ → Timing → Timing
semantic kind now t = alive t (elim t.started_at [
  | none ↦ t
  | some _ ↦ elim t.first_at [
    | none ↦ record t { first_at = some now; first_kind = some kind }
    | some _ ↦ t
  ]
])

pub accept : ℕ → Timing → Timing
accept now t =
    alive t (elim t.started_at [
      | none ↦ t
      | some _ ↦ record t { accept_at = first_time t.accept_at now }
    ])

report : TurnEndReason → Option KilledBy → Option RecoverKind → ℕ → Timing → Report
report reason killed_by kind end t = record {
  attempt = t.attempt;
  queue_ms = between (some t.enqueued_at) t.started_at;
  gate_wait_ms = t.gate_ms;
  first_event_ms = between t.started_at t.first_at;
  duration_ms = since end t.started_at;
  first_event_kind = t.first_kind;
  end_reason = reason;
  killed_by = killed_by;
  recover_kind = kind;
  lifetime_limit = t.lifetime_limit;
  accept_ms = between t.started_at t.accept_at;
  session_mode = t.session_mode;
  boot_ms = t.boot_ms;
}

pub finish : TurnEndReason → Option KilledBy → Option RecoverKind → ℕ → Timing → Timing
unfolding report
finish reason killed_by kind now t =
    alive t
      (record t { ended = true; emitted = t.emitted ++ report reason killed_by kind now t ∷ [] })

pub data Call : Type 0 where
  gates gated starts boots booted accepts : Call
  boots_in : ℕ → Call
  limits : LifetimeLimit → Call
  speaks : SemanticKind → Call
  ends : TurnEndReason → Option KilledBy → Option RecoverKind → Call

pub step : Timing → ℕ × Call → Timing
step t (now, gates) = gate_start now t
step t (now, gated) = gate_end now t
step t (now, starts) = start now t
step t (now, boots) = boot_start now t
step t (now, booted) = boot_ready now t
step t (now, accepts) = accept now t
step t (now, boots_in ms) = set_boot_ms ms t
step t (now, limits limit) = set_lifetime_limit limit t
step t (now, speaks kind) = semantic kind now t
step t (now, ends reason killed_by kind) = finish reason killed_by kind now t

pub run : Timing → List (ℕ × Call) → Timing
run t [] = t
run t (c ∷ cs) = run (step t c) cs
