-- ===== src/Gate/Invariant.antt =====
-- The accounting of slots: what the counters of a pool mean, kept by every event.
use Prim.Native.String.{String}
use the_dudes_daemon.Base.{
  ℕ, suc, ◌+◌, ◌-◌, ◌≤◌, ◌≡◌, ◌⊎◌, ◌∙◌, inl, inr, refl, Bool, true, false, not, ◌&&◌, some, List,
  [], ◌∷◌, arith, ltb, leb, if◌then◌else◌, delete, comparable_nat, count, count-append,
  Option-cases, Bool-cases,
}
use the_dudes_daemon.Gate.{
  TurnGatePool, main, bg, Waiter, Slot, Gate, is_pool, set_at, init, conceder, new_slot, set_fila,
  enqueue, proximo_from, acquire_turn_slot, find, free, release_slot, release, count_forced,
  timeout, step, run, Event, acquires, releases, timeouts,
}

-- A slot that is granted in the pool and not yet given back.
abbrev pub is_live : TurnGatePool → Slot → Bool
is_live p s = not s.liberado && is_pool p s.pool

abbrev pub live : TurnGatePool → Gate → ℕ
live p g = count (is_live p) g.slots

-- The counter is the number of slots that are out, and is within the limit.
pub record IsCounted (p : TurnGatePool) (g : Gate) : Type 0 where
  pub within : (g.pools p).ativos ≤ (g.pools p).max
  pub counted : (g.pools p).ativos ≡ live p g

-- Nobody waits while a slot is free.
abbrev pub IsBusy : TurnGatePool → Gate → Type 0
IsBusy p g = ((g.pools p).fila ≡ []) ⊎ ((g.pools p).max ≤ (g.pools p).ativos)

pub record IsValid (p : TurnGatePool) (g : Gate) : Type 0 where
  pub within : (g.pools p).ativos ≤ (g.pools p).max
  pub counted : (g.pools p).ativos ≡ live p g
  pub busy : IsBusy p g

pub is_pool_refl : (p : TurnGatePool) → is_pool p p ≡ true
is_pool_refl main = refl
is_pool_refl bg = refl

is_pool_comm : (p q : TurnGatePool) → is_pool p q ≡ is_pool q p
is_pool_comm main main = refl
is_pool_comm main bg = refl
is_pool_comm bg main = refl
is_pool_comm bg bg = refl

conceder-IsCounted :
    (b : Bool) (p : TurnGatePool) (w : Waiter) (now : ℕ) (g : Gate)
    → ltb (g.pools p).ativos (g.pools p).max ≡ true
    → IsCounted p g
    → IsCounted p (conceder b p w now g)
unfolding conceder
conceder-IsCounted b main w now g h v =
    ground (arith, count-append (is_live main) g.slots (new_slot main w now ∷ []))
conceder-IsCounted b bg w now g h v =
    ground (arith, count-append (is_live bg) g.slots (new_slot bg w now ∷ []))

set_fila-IsCounted :
    (p : TurnGatePool) (ws : List Waiter) (g : Gate) → IsCounted p g → IsCounted p (set_fila p ws g)
set_fila-IsCounted main ws g v = ground arith
set_fila-IsCounted bg ws g v = ground arith

-- The loop of `proximo` ends with an empty queue or a full pool.
proximo_from-IsValid :
    (p : TurnGatePool) (now : ℕ) (ws : List Waiter) (g : Gate)
    → IsCounted p g
    → IsValid p (proximo_from p now ws g)
unfolding proximo_from
proximo_from-IsValid main now [] g v = ground arith
proximo_from-IsValid bg now [] g v = ground arith
proximo_from-IsValid main now (w ∷ ws) g v = ground (
  arith,
  conceder-IsCounted true main w now g,
  proximo_from-IsValid main now ws (conceder true main w now g),
)
proximo_from-IsValid bg now (w ∷ ws) g v = ground (
  arith,
  conceder-IsCounted true bg w now g,
  proximo_from-IsValid bg now ws (conceder true bg w now g),
)

-- What one pool does leaves the other alone.
record Same (q : TurnGatePool) (g h : Gate) : Type 0 where
  pools : h.pools q ≡ g.pools q
  lives : live q h ≡ live q g

Same-IsValid : {q : TurnGatePool} {g h : Gate} → Same q g h → IsValid q g → IsValid q h
Same-IsValid s v = ground arith

conceder-Same :
    (b : Bool) (p q : TurnGatePool) (w : Waiter) (now : ℕ) (g : Gate)
    → is_pool p q ≡ false
    → Same q g (conceder b p w now g)
unfolding conceder
conceder-Same b main bg w now g h =
    ground (arith, count-append (is_live bg) g.slots (new_slot main w now ∷ []))
conceder-Same b bg main w now g h =
    ground (arith, count-append (is_live main) g.slots (new_slot bg w now ∷ []))
conceder-Same b main main w now g h = cc
conceder-Same b bg bg w now g h = cc

proximo_from-Same :
    (p q : TurnGatePool) (now : ℕ) (ws : List Waiter) (g : Gate)
    → is_pool p q ≡ false
    → Same q g (proximo_from p now ws g)
unfolding proximo_from
proximo_from-Same p q now [] g h = ground arith
proximo_from-Same p q now (w ∷ ws) g h = ground (
  arith,
  conceder-Same true p q w now g h,
  proximo_from-Same p q now ws (conceder true p w now g) h,
)

enqueue-Same :
    (p q : TurnGatePool) (w : Waiter) (g : Gate) → is_pool p q ≡ false → Same q g (enqueue p w g)
unfolding enqueue
enqueue-Same p q w g h = ground arith

grant-IsValid :
    (p : TurnGatePool) (w : Waiter) (now : ℕ) (g : Gate)
    → ltb (g.pools p).ativos (g.pools p).max ≡ true
    → IsValid p g
    → IsValid p (conceder false p w now g)
unfolding conceder
grant-IsValid main w now g h v = ground (arith, conceder-IsCounted false main w now g h)
grant-IsValid bg w now g h v = ground (arith, conceder-IsCounted false bg w now g h)

enqueue-IsValid :
    (p : TurnGatePool) (w : Waiter) (g : Gate)
    → ltb (g.pools p).ativos (g.pools p).max ≡ false
    → IsValid p g
    → IsValid p (enqueue p w g)
unfolding enqueue
enqueue-IsValid main w g h v = ground arith
enqueue-IsValid bg w g h v = ground arith

abbrev asked : Gate → Gate
asked g = record g { slot_seq = suc g.slot_seq }

abbrev request : String → ℕ → Gate → Waiter
request label now g = record { id = suc g.slot_seq; label = label; pedido_em = now }

-- From the pool that an event works on, and the other, to both.
both_pools :
    {g h : Gate} (p q : TurnGatePool)
    → IsValid p h
    → (is_pool p q ≡ false → Same q g h)
    → IsValid q g
    → IsValid q h
both_pools main main own other v = own
both_pools bg bg own other v = own
both_pools main bg own other v = Same-IsValid (other refl) v
both_pools bg main own other v = Same-IsValid (other refl) v

acquire-IsValid :
    (label : String) (p q : TurnGatePool) (now : ℕ) (g : Gate)
    → IsValid p g
    → IsValid q g
    → IsValid q (acquire_turn_slot label p now g)
unfolding acquire_turn_slot
acquire-IsValid label p q now g u v =
    let w = request label now g in
    let g' = asked g in
    let u' : IsValid p g' = record { within = u.within; counted = u.counted; busy = u.busy } in
    let v' : IsValid q g' = record { within = v.within; counted = v.counted; busy = v.busy } in
    elim (Bool-cases (ltb (g.pools p).ativos (g.pools p).max)) [
      | inl h ↦
          rw h
            (both_pools p q (grant-IsValid p w now g' h u') (conceder-Same false p q w now g') v')
      | inr h ↦ rw h (both_pools p q (enqueue-IsValid p w g' h u') (enqueue-Same p q w g') v')
    ]

pub find-id : (id : ℕ) (ss : List Slot) (s : Slot) → find id ss ≡ some s → s.id ≡ id
unfolding find
find-id id [] s h = cc
find-id id (t ∷ ss) s h = ground (arith, find-id id ss s)

count-free :
    (p : TurnGatePool) (id : ℕ) (ss : List Slot) (s : Slot)
    → find id ss ≡ some s
    → s.liberado ≡ false
    → count (is_live p) ss ≡ (if is_pool p s.pool then 1 else 0) + count (is_live p) (free id ss)
unfolding find free
count-free p id [] s h f = cc
count-free p id (t ∷ ss) s h f = ground (arith, count-free p id ss s)

-- The state in which `release` calls `proximo`.
abbrev pub returned : Slot → Gate → Gate
returned s g =
    let pool = g.pools s.pool in
    record g {
      slots = free s.id g.slots;
      holders = delete s.id g.holders;
      pools = set_at s.pool (record pool { ativos = pool.ativos - 1 }) g.pools;
    }

pub returned-IsCounted :
    (id : ℕ) (s : Slot) (g : Gate)
    → find id g.slots ≡ some s
    → s.liberado ≡ false
    → IsValid s.pool g
    → IsCounted s.pool (returned s g)
returned-IsCounted id s g h f v =
    let same = find-id id g.slots s h in
    let freed = rw is_pool_refl at (count-free s.pool id g.slots s h f) in
    record {
      within = rw is_pool_refl (omega arith);
      counted = rw (is_pool_refl, same) (omega arith);
    }

-- A slot that is out is one of the active turns.
pub ativos-pos :
    (id : ℕ) (s : Slot) (g : Gate)
    → find id g.slots ≡ some s
    → s.liberado ≡ false
    → IsValid s.pool g
    → 1 ≤ (g.pools s.pool).ativos
ativos-pos id s g h f v =
    let freed = rw is_pool_refl at (count-free s.pool id g.slots s h f) in omega arith

returned-Same :
    (id : ℕ) (s : Slot) (q : TurnGatePool) (g : Gate)
    → find id g.slots ≡ some s
    → s.liberado ≡ false
    → is_pool s.pool q ≡ false
    → Same q g (returned s g)
returned-Same id s q g h f d =
    let same = find-id id g.slots s h in
    let freed = rw (is_pool_comm q s.pool, d) at (count-free q id g.slots s h f) in
    record { pools = rw d; lives = rw same (omega arith) }

Same-trans : {q : TurnGatePool} {g h k : Gate} → Same q g h → Same q h k → Same q g k
Same-trans a b = record { pools = b.pools ∙ a.pools; lives = b.lives ∙ a.lives }

release_slot-IsValid :
    (id : ℕ) (s : Slot) (now : ℕ) (q : TurnGatePool) (g : Gate)
    → find id g.slots ≡ some s
    → s.liberado ≡ false
    → IsValid s.pool g
    → IsValid q g
    → IsValid q (release_slot s now g)
unfolding release_slot
release_slot-IsValid id s now q g h f u v =
    let g' = returned s g in
    both_pools s.pool q
      (proximo_from-IsValid s.pool now (g'.pools s.pool).fila g' (returned-IsCounted id s g h f u))
      (λ d.
        Same-trans (returned-Same id s q g h f d)
          (proximo_from-Same s.pool q now (g'.pools s.pool).fila g' d))
      v

release-IsValid :
    (id now : ℕ) (q : TurnGatePool) (g : Gate)
    → ((p : TurnGatePool) → IsValid p g)
    → IsValid q (release id now g)
unfolding release
release-IsValid id now q g all = elim (Option-cases (find id g.slots)) [
  | inl e ↦ rw (e, release) (all q)
  | inr (s, e) ↦ elim (Bool-cases s.liberado) [
    | inl t ↦ rw (e, release, t) (all q)
    | inr f ↦ rw (e, release, f) (release_slot-IsValid id s now q g e f (all s.pool) (all q))
  ]
]

count_forced-IsValid : (p q : TurnGatePool) (g : Gate) → IsValid q g → IsValid q (count_forced p g)
unfolding count_forced
count_forced-IsValid p q g v = record { within = v.within; counted = v.counted; busy = v.busy }

timeout-IsValid :
    (id now : ℕ) (q : TurnGatePool) (g : Gate)
    → ((p : TurnGatePool) → IsValid p g)
    → IsValid q (timeout id now g)
unfolding timeout count_forced
timeout-IsValid id now q g all = elim (Option-cases (find id g.slots)) [
  | inl e ↦ rw (e, timeout) (all q)
  | inr (s, e) ↦ elim (Bool-cases s.liberado) [
    | inl t ↦ rw (e, timeout, t) (all q)
    | inr f ↦ elim (Bool-cases (leb s.guarda now)) [
      | inl due ↦
          rw (e, timeout, f, due)
            (release_slot-IsValid id s now q (count_forced s.pool g) e f
              (count_forced-IsValid s.pool s.pool g (all s.pool))
              (count_forced-IsValid s.pool q g (all q)))
      | inr early ↦ rw (e, timeout, f, early) (all q)
    ]
  ]
]

step-IsValid :
    (e : ℕ × Event) (g : Gate)
    → ((p : TurnGatePool) → IsValid p g)
    → (p : TurnGatePool) → IsValid p (step g e)
unfolding step
step-IsValid (now, acquires label p) g all q = acquire-IsValid label p q now g (all p) (all q)
step-IsValid (now, releases id) g all q = release-IsValid id now q g all
step-IsValid (now, timeouts id) g all q = timeout-IsValid id now q g all

run-IsValid :
    (es : List (ℕ × Event)) (g : Gate)
    → ((p : TurnGatePool) → IsValid p g)
    → (p : TurnGatePool) → IsValid p (run g es)
unfolding run
run-IsValid [] g all = all
run-IsValid (e ∷ es) g all = run-IsValid es (step g e) (step-IsValid e g all)

init-IsValid : (m b : ℕ) (p : TurnGatePool) → IsValid p (init m b)
unfolding init
init-IsValid m b p = record { within = omega arith; counted = refl; busy = inl refl }

-- After any sequence of requests, releases and expired timers, in each pool: the number of active
-- turns is the number of slots that are granted and not given back, it is at most the pool's
-- maximum, and nobody waits in the queue while a slot is free.
pub run-init-IsValid :
    (max_main max_bg : ℕ) (es : List (ℕ × Event)) (p : TurnGatePool)
    → IsValid p (run (init max_main max_bg) es)
run-init-IsValid m b es p = run-IsValid es (init m b) (init-IsValid m b) p
