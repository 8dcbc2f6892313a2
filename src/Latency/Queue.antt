-- ===== src/Latency/Queue.antt =====
-- src/runners/turn-latency.ts, `TurnLatency`: the timings of the messages that wait and of the turn
-- that runs. A timing is an object that its turn and the queue share, so it has a place in `timings`
-- and is named by its index; a message is the identity of its object. The log and the debug view of
-- the live turns are left out: what a timing reports is in its `emitted`.
mod Places
mod Known
mod Reports
mod Examples
use the_dudes_daemon.Base.{
  ℕ, zero, suc, Bool, true, false, Option, none, some, List, [], ◌∷◌, ◌++◌, lookup, insert, delete,
  length, comparable_nat, if◌then◌else◌,
}
use the_dudes_daemon.Latency.{
  Timing, SessionMode, TurnEndReason, KilledBy, RecoverKind, create, set_boot_ms, finish, Call,
  step,
}

pub record TurnLatency : Type 0 where
  pub timings : List Timing
  pub current : Option ℕ
  pub queued : List (ℕ × ℕ)
  pub next_boot_ms : Option ℕ

pub new : TurnLatency
new = record { timings = []; current = none; queued = []; next_boot_ms = none }

-- The timing at an index, and a call of its methods.
pub timing_at : ℕ → List Timing → Option Timing
timing_at i [] = none
timing_at zero (t ∷ ts) = some t
timing_at (suc i) (t ∷ ts) = timing_at i ts

pub change : ℕ → (Timing → Timing) → List Timing → List Timing
change i f [] = []
change zero f (t ∷ ts) = f t ∷ ts
change (suc i) f (t ∷ ts) = t ∷ change i f ts

pub change_some : Option ℕ → (Timing → Timing) → List Timing → List Timing
unfolding change
change_some none f ts = ts
change_some (some i) f ts = change i f ts

pub change_each : List (ℕ × ℕ) → (Timing → Timing) → List Timing → List Timing
unfolding change
change_each [] f ts = ts
change_each ((message, i) ∷ queue) f ts = change_each queue f (change i f ts)

-- `this.create(attempt)`: the index of the timing, and the state that has it.
pub create_timing : ℕ → ℕ → TurnLatency → ℕ × TurnLatency
create_timing attempt now l =
    (length l.timings, record l { timings = l.timings ++ create attempt now ∷ [] })

pub next_attempt : Bool → TurnLatency → ℕ
unfolding timing_at
next_attempt false l = 0
next_attempt true l = elim l.current [
  | none ↦ 1
  | some i ↦ elim (timing_at i l.timings) [ none ↦ 1 | some t ↦ suc t.attempt ]
]

-- `if (!this.queued.has(message)) ...`, with what `queued` has for the message.
pub enqueue_new : Option ℕ → ℕ → Bool → ℕ → TurnLatency → TurnLatency
unfolding create_timing next_attempt
enqueue_new (some _) message retry now l = l
enqueue_new none message retry now l =
    let (i, l') = create_timing (next_attempt retry l) now l in
    record l' { queued = insert message i l'.queued }

pub enqueue : ℕ → Bool → ℕ → TurnLatency → TurnLatency
unfolding enqueue_new
enqueue message retry now l = enqueue_new (lookup message l.queued) message retry now l

pub set_next_boot : Option ℕ → ℕ → List Timing → List Timing
unfolding change
set_next_boot none i ts = ts
set_next_boot (some ms) i ts = change i (set_boot_ms ms) ts

-- `?? this.create()`
pub or_create : Option ℕ → ℕ → TurnLatency → ℕ × TurnLatency
unfolding create_timing
or_create (some i) now l = (i, l)
or_create none now l = create_timing 0 now l

-- What `activate` does with the timing that it found or made.
pub begin : SessionMode → ℕ → TurnLatency → TurnLatency
unfolding change set_next_boot
begin mode i l = record l {
  timings =
      set_next_boot l.next_boot_ms i
        (change i (λ t. record t { session_mode = some mode }) l.timings);
  current = some i;
  next_boot_ms = none;
}

pub activate : ℕ → SessionMode → ℕ → TurnLatency → ℕ × TurnLatency
unfolding begin or_create
activate message mode now l =
    let (i, l') = or_create (lookup message l.queued) now l in
    (i, begin mode i (record l' { queued = delete message l'.queued }))

-- The object `{}` that `ensure` activates is new, so no timing waits for it.
pub ensure_current : Option ℕ → SessionMode → ℕ → TurnLatency → ℕ × TurnLatency
unfolding begin create_timing
ensure_current (some i) mode now l = (i, l)
ensure_current none mode now l = let (i, l') = create_timing 0 now l in (i, begin mode i l')

pub ensure : SessionMode → ℕ → TurnLatency → ℕ × TurnLatency
unfolding ensure_current
ensure mode now l = ensure_current l.current mode now l

pub boot_ready_in : ℕ → TurnLatency → TurnLatency
boot_ready_in ms l = record l { next_boot_ms = some ms }

pub discard : ℕ → TurnEndReason → ℕ → TurnLatency → TurnLatency
unfolding change_some
discard message reason now l = record l {
  timings = change_some (lookup message l.queued) (finish reason none none now) l.timings;
  queued = delete message l.queued;
}

pub finish_all :
    TurnEndReason → Option KilledBy → Option RecoverKind → ℕ → TurnLatency → TurnLatency
unfolding change_some change_each
finish_all reason killed_by kind now l =
    let f = finish reason killed_by kind now in
    record l { timings = change_each l.queued f (change_some l.current f l.timings); queued = [] }

-- The calls of a runner: of the queue, and of the methods of a timing that it got.
pub data Op : Type 0 where
  enqueues : ℕ → Bool → Op
  activates : ℕ → SessionMode → Op
  ensures : SessionMode → Op
  next_boots : ℕ → Op
  discards : ℕ → TurnEndReason → Op
  finishes : TurnEndReason → Option KilledBy → Option RecoverKind → Op
  calls : ℕ → Call → Op

pub act : TurnLatency → ℕ × Op → TurnLatency
unfolding enqueue activate ensure boot_ready_in discard finish_all change
act l (now, enqueues message retry) = enqueue message retry now l
act l (now, activates message mode) = (activate message mode now l).1
act l (now, ensures mode) = (ensure mode now l).1
act l (now, next_boots ms) = boot_ready_in ms l
act l (now, discards message reason) = discard message reason now l
act l (now, finishes reason killed_by kind) = finish_all reason killed_by kind now l
act l (now, calls i call) = record l { timings = change i (λ t. step t (now, call)) l.timings }

pub acts : TurnLatency → List (ℕ × Op) → TurnLatency
unfolding act
acts l [] = l
acts l (op ∷ ops) = acts (act l op) ops
