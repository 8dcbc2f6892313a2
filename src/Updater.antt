-- ===== src/Updater.antt =====
-- src/self-update.ts: the signed update of the daemon and the wait for a moment to restart. The
-- module's variables are one state; `Date.now()` is `now`, and what `isIdle` answers is `idle`.
pub mod Bundle
pub mod Check
pub mod Deadline
mod Boot
mod Examples
use Prim.Native.String.{String}
use the_dudes_daemon.Base.{
  ℕ, zero, suc, ◌+◌, ◌*◌, Bool, true, false, not, ◌&&◌, ◌||◌, Option, none, some, List, [], ◌∷◌,
  leb, if◌then◌else◌,
}

-- The settings with their defaults put in; `can_drain` is whether `startDrain` is given.
pub record Config : Type 0 where
  pub under_launcher : Bool
  pub drain_after_ms : ℕ
  pub drain_force_ms : ℕ
  pub can_drain : Bool

abbrev pub drain_after_ms : ℕ
drain_after_ms = 10 * 60000

abbrev pub drain_force_ms : ℕ
drain_force_ms = 15 * 60000

pub record UpdateState : Type 0 where
  pub idle_restart_armed : Bool
  pub update_pending : Bool
  pub update_pending_since : Option ℕ
  pub update_draining : Bool
  pub drain_forced : Bool
  pub applied_release_hash : Option String

pub initial : UpdateState
initial = record {
  idle_restart_armed = false;
  update_pending = false;
  update_pending_since = none;
  update_draining = false;
  drain_forced = false;
  applied_release_hash = none;
}

pub data UpdateResult : Type 0 where
  current updated updated_awaiting_idle updated_restart_pending failed : UpdateResult

-- `updated` is the exit with code 42, once the children are ended or their time is over.
pub request_reexec : Config → UpdateState → UpdateState × UpdateResult
request_reexec c s =
    if c.under_launcher
    then (s, updated)
    else (record s { update_draining = false; drain_forced = false }, updated_restart_pending)

-- What a tick of the recheck does: nothing, another tick later, or a restart.
pub data Tick : Type 0 where
  stands again : Tick
  restarts : UpdateResult → Tick

-- `now() - (updatePendingSince ?? now()) >= wait`
pub pending_for : ℕ → Option ℕ → ℕ → Bool
pending_for now none wait = leb wait 0
pending_for now (some since) wait = leb (since + wait) now

restart : UpdateState × UpdateResult → UpdateState × Tick
restart (s, r) = (s, restarts r)

-- The drain starts where it can, once the update has waited long enough.
drain_if : Config → ℕ → UpdateState → Bool
unfolding pending_for
drain_if c now s =
    s.update_draining || (c.can_drain && pending_for now s.update_pending_since c.drain_after_ms)

busy_tick : Config → ℕ → UpdateState → UpdateState × Tick
unfolding drain_if restart request_reexec
busy_tick c now s =
    let draining = drain_if c now s in
    let s' = record s { update_draining = draining } in
    if draining && pending_for now s.update_pending_since (c.drain_after_ms + c.drain_force_ms)
    then restart (request_reexec c (record s' { drain_forced = true; idle_restart_armed = false }))
    else (s', again)

pub tick : Config → Bool → ℕ → UpdateState → UpdateState × Tick
unfolding busy_tick
tick c idle now s =
    if s.drain_forced
    then (s, stands)
    else if idle
    then restart (request_reexec c (record s { idle_restart_armed = false }))
    else busy_tick c now s

-- `planRestartWhenIdle`, and whether it sets the timer of the first tick.
pub plan_restart_when_idle : Config → Bool → UpdateState → (UpdateState × UpdateResult) × Bool
unfolding request_reexec
plan_restart_when_idle c idle s =
    if idle
    then (request_reexec c s, false)
    else if s.idle_restart_armed
    then ((s, updated_awaiting_idle), false)
    else ((record s { idle_restart_armed = true }, updated_awaiting_idle), true)

-- What each tick finds: the time, and whether no turn runs.
pub record Look : Type 0 where
  pub now : ℕ
  pub idle : Bool

go_on : UpdateState × Tick → UpdateState × Tick → UpdateState × Tick
go_on (s, again) rest = rest
go_on (s, stands) rest = (s, stands)
go_on (s, restarts r) rest = (s, restarts r)

-- The chain of ticks that one timer starts, until one of them sets no other.
pub ticks : Config → List Look → UpdateState → UpdateState × Tick
unfolding tick go_on
ticks c [] s = (s, again)
ticks c (l ∷ looks) s = let first = tick c l.idle l.now s in go_on first (ticks c looks first.0)
