-- ===== src/SelfUpdate.antt =====
-- src/self-update-gate.ts: one check for an update at a time. A check runs between the `trigger` that
-- begins it and its end, whether it succeeds or throws.
mod Single
use Prim.Native.String.{String}
use the_dudes_daemon.Base.{
  ℕ, suc, ◌+◌, Bool, true, false, Option, none, some, List, [], ◌∷◌, lookup, comparable_string,
}

pub data SelfUpdateTriggerResult : Type 0 where
  started skipped_inflight skipped_disabled : SelfUpdateTriggerResult

-- `inFlight`, and how many checks have begun and ended.
pub record UpdateGate : Type 0 where
  pub in_flight : Bool
  pub begun : ℕ
  pub ended : ℕ

pub create : UpdateGate
create = record { in_flight = false; begun = 0; ended = 0 }

pub busy : UpdateGate → Bool
busy g = g.in_flight

-- The part of `trigger` before `await opts.run()`, for what `enabled` answers.
pub trigger : Bool → UpdateGate → UpdateGate × SelfUpdateTriggerResult
trigger false g = (g, skipped_disabled)
trigger true g = elim g.in_flight [
  | true ↦ (g, skipped_inflight)
  | false ↦ (record g { in_flight = true; begun = suc g.begun }, started)
]

-- `finally`, of a check that runs.
pub finish : UpdateGate → UpdateGate
finish g = elim g.in_flight [
  | true ↦ record g { in_flight = false; ended = suc g.ended }
  | false ↦ g
]

pub data Dispatch : Type 0 where
  handled ignored : Dispatch

-- A handler is what it does to the daemon's state.
pub dispatch_orch_event {ℓ} : {S : Type ℓ} → String → List (String × (S → S)) → S → S × Dispatch
dispatch_orch_event type handlers s = elim (lookup type handlers) [
  | none ↦ (s, ignored)
  | some h ↦ (h s, handled)
]

pub data Event : Type 0 where
  triggers : Bool → Event
  finishes : Event

pub step : UpdateGate → Event → UpdateGate
step g (triggers enabled) = (trigger enabled g).0
step g finishes = finish g

pub run : UpdateGate → List Event → UpdateGate
run g [] = g
run g (e ∷ es) = run (step g e) es
