-- ===== src/Gate.antt =====
-- src/runners/turn-gate.ts: the semaphore for turns of a command-line agent, in two pools.
-- `Date.now()` is the argument `now` of each call. The closures of `acquireTurnSlot` are data: a
-- waiting `conceder` is a `Waiter`, and the variables of a granted slot's `release` are a `Slot`.
-- The text of the log lines is left out.

pub mod Invariant
pub mod Fairness
mod Stats
mod Examples
use Prim.Native.String.{String}
use the_dudes_daemon.Base.{
  ℕ, suc, ◌+◌, ◌-◌, ◌≡◌, Bool, true, false, Option, none, some, List, [], ◌∷◌, ◌++◌, ltb, leb,
  if◌then◌else◌, length, keep_last, insert, delete, nat_beq, comparable_nat,
}
use the_dudes_daemon.Limits.{max_hold_ms}

pub data TurnGatePool : Type 0 where
  main bg : TurnGatePool

-- `conceder` in the queue, with the variables that it closes over.
pub record Waiter : Type 0 where
  pub id : ℕ
  pub label : String
  pub pedido_em : ℕ

pub record PoolState : Type 0 where
  pub max : ℕ
  pub ativos : ℕ
  pub fila : List Waiter

pub record SlotInfo : Type 0 where
  pub label : String
  pub pool : TurnGatePool
  pub since : ℕ

pub record PoolStats : Type 0 where
  pub grants : ℕ
  pub waited : ℕ
  pub forced : ℕ
  pub wait_ms : List ℕ

-- The variables of one `release`: which slot it frees, whether it ran, and when its timer fires.
pub record Slot : Type 0 where
  pub id : ℕ
  pub pool : TurnGatePool
  pub liberado : Bool
  pub guarda : ℕ

pub record Gate : Type 0 where
  pub slot_seq : ℕ
  pub pools : TurnGatePool → PoolState
  pub stats : TurnGatePool → PoolStats
  pub holders : List (ℕ × SlotInfo)
  pub waiters : List (ℕ × SlotInfo)
  pub slots : List Slot

abbrev pub wait_samples : ℕ
wait_samples = 300

-- `MAX_MAIN` and `MAX_BG`: what `parseInt` read, if it is finite and at least 1.
pub max_turns : ℕ → Option ℕ → ℕ
max_turns fallback none = fallback
max_turns fallback (some raw) = if leb 1 raw then raw else fallback

abbrev pub is_pool : TurnGatePool → TurnGatePool → Bool
is_pool main main = true
is_pool bg bg = true
is_pool _ _ = false

abbrev pub set_at {ℓ} : {A : Type ℓ} → TurnGatePool → A → (TurnGatePool → A) → TurnGatePool → A
set_at p a f q = if is_pool p q then a else f q

abbrev no_stats : PoolStats
no_stats = record { grants = 0; waited = 0; forced = 0; wait_ms = [] }

abbrev pub idle_pool : ℕ → PoolState
idle_pool max = record { max = max; ativos = 0; fila = [] }

abbrev pub limits : ℕ → ℕ → TurnGatePool → ℕ
limits max_main max_bg main = max_main
limits max_main max_bg bg = max_bg

pub init : ℕ → ℕ → Gate
init max_main max_bg = record {
  slot_seq = 0;
  pools = λ p. idle_pool (limits max_main max_bg p);
  stats = λ p. no_stats;
  holders = [];
  waiters = [];
  slots = [];
}

count_grant : Bool → ℕ → PoolStats → PoolStats
count_grant true waited_ms st = record st {
  grants = st.grants + 1;
  waited = st.waited + 1;
  wait_ms = keep_last wait_samples (st.wait_ms ++ waited_ms ∷ []);
}
count_grant false waited_ms st = record st { grants = st.grants + 1 }

abbrev pub new_slot : TurnGatePool → Waiter → ℕ → Slot
new_slot p w now = record { id = w.id; pool = p; liberado = false; guarda = now + max_hold_ms }

-- `conceder`; `enfileirado` tells a request that waited from one that did not.
conceder : Bool → TurnGatePool → Waiter → ℕ → Gate → Gate
conceder enfileirado p w now g =
    let pool = g.pools p in
    record g {
      pools = set_at p (record pool { ativos = pool.ativos + 1 }) g.pools;
      stats = set_at p (count_grant enfileirado (now - w.pedido_em) (g.stats p)) g.stats;
      waiters = delete w.id g.waiters;
      holders = insert w.id (record { label = w.label; pool = p; since = now }) g.holders;
      slots = g.slots ++ new_slot p w now ∷ [];
    }

abbrev set_fila : TurnGatePool → List Waiter → Gate → Gate
set_fila p ws g = record g { pools = set_at p (record (g.pools p) { fila = ws }) g.pools }

-- The loop of `proximo` over the queue `ws`, which stands beside the state that it is part of.
proximo_from : TurnGatePool → ℕ → List Waiter → Gate → Gate
proximo_from p now [] g = set_fila p [] g
proximo_from p now (w ∷ ws) g =
    let rest = proximo_from p now ws (conceder true p w now g) in
    if ltb (g.pools p).ativos (g.pools p).max then rest else set_fila p (w ∷ ws) g

proximo : TurnGatePool → ℕ → Gate → Gate
unfolding proximo_from
proximo p now g = proximo_from p now (g.pools p).fila g

enqueue : TurnGatePool → Waiter → Gate → Gate
enqueue p w g = record g {
  waiters = insert w.id (record { label = w.label; pool = p; since = w.pedido_em }) g.waiters;
  pools = set_at p (record (g.pools p) { fila = (g.pools p).fila ++ w ∷ [] }) g.pools;
}

pub acquire_turn_slot : String → TurnGatePool → ℕ → Gate → Gate
unfolding conceder enqueue
acquire_turn_slot label p now g =
    let g' : Gate = record g { slot_seq = suc g.slot_seq } in
    let w : Waiter = record { id = g'.slot_seq; label = label; pedido_em = now } in
    if ltb (g.pools p).ativos (g.pools p).max then conceder false p w now g' else enqueue p w g'

pub find : ℕ → List Slot → Option Slot
find id [] = none
find id (s ∷ ss) = if nat_beq s.id id then some s else find id ss

-- `liberado = true`
pub free : ℕ → List Slot → List Slot
free id [] = []
free id (s ∷ ss) = if nat_beq s.id id then record s { liberado = true } ∷ ss else s ∷ free id ss

-- The body of `release` behind `if (liberado) return`.
release_slot : Slot → ℕ → Gate → Gate
unfolding proximo
release_slot s now g =
    let pool = g.pools s.pool in
    proximo s.pool now (record g {
      slots = free s.id g.slots;
      holders = delete s.id g.holders;
      pools = set_at s.pool (record pool { ativos = pool.ativos - 1 }) g.pools;
    })

-- No `release` exists for an id that has not been granted.
pub release : ℕ → ℕ → Gate → Gate
unfolding find release_slot
release id now g = elim (find id g.slots) [
  | none ↦ g
  | some s ↦ if s.liberado then g else release_slot s now g
]

count_forced : TurnGatePool → Gate → Gate
count_forced p g = record g {
  stats = set_at p (record (g.stats p) { forced = (g.stats p).forced + 1 }) g.stats;
}

-- `guarda`: the timer of a slot that `release` has not cleared, at its time or later.
pub timeout : ℕ → ℕ → Gate → Gate
unfolding find release_slot count_forced
timeout id now g = elim (find id g.slots) [
  | none ↦ g
  | some s ↦
      if s.liberado
      then g
      else if leb s.guarda now
      then release_slot s now (count_forced s.pool g)
      else g
]

pub data Event : Type 0 where
  acquires : String → TurnGatePool → Event
  releases timeouts : ℕ → Event

pub step : Gate → ℕ × Event → Gate
step g (now, acquires label p) = acquire_turn_slot label p now g
step g (now, releases id) = release id now g
step g (now, timeouts id) = timeout id now g

pub run : Gate → List (ℕ × Event) → Gate
run g [] = g
run g (e ∷ es) = run (step g e) es
