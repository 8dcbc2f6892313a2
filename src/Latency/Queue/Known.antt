-- ===== src/Latency/Queue/Known.antt =====
-- The timings that a queue names: each is there, and has one report when it ended and none before.
use the_dudes_daemon.Base.{
  ℕ, refl, Bool, true, false, Option, none, some, List, [], ◌∷◌, lookup, insert, delete, length,
  comparable_nat, if◌then◌else◌, ◌==◌,
}
use the_dudes_daemon.Latency.{SessionMode, create}
use the_dudes_daemon.Latency.Once.{IsCounted, step-IsCounted}
use the_dudes_daemon.Latency.Queue.{
  TurnLatency, new, begin, or_create, create_timing, next_attempt, enqueue_new, enqueue, activate,
  ensure_current, ensure, boot_ready_in, discard, finish_all, Op, enqueues, activates, ensures,
  next_boots, discards, finishes, calls, act, acts,
}
use the_dudes_daemon.Latency.Queue.Places.{At, append-At, last-At, begin-At, act-At}

-- Q holds of the timing of the turn, and of those of the messages that wait.
unfoldable pub OnSome : (ℕ → Type 0) → Option ℕ → Type 0
OnSome Q none = Unit
OnSome Q (some i) = Q i

unfoldable pub OnQueue : (ℕ → Type 0) → List (ℕ × ℕ) → Type 0
OnQueue Q [] = Unit
OnQueue Q ((message, i) ∷ queue) = Q i × OnQueue Q queue

pub map-OnSome :
    {Q R : ℕ → Type 0} (f : (i : ℕ) → Q i → R i) (o : Option ℕ) → OnSome Q o → OnSome R o
unfolding OnSome
map-OnSome f none h = tt
map-OnSome f (some i) h = f i h

pub map-OnQueue :
    {Q R : ℕ → Type 0} (f : (i : ℕ) → Q i → R i) (queue : List (ℕ × ℕ))
    → OnQueue Q queue
    → OnQueue R queue
unfolding OnQueue
map-OnQueue f [] h = tt
map-OnQueue f ((message, i) ∷ queue) (h, hs) = (f i h, map-OnQueue f queue hs)

if-OnQueue :
    (Q : ℕ → Type 0) (b : Bool) (xs ys : List (ℕ × ℕ))
    → OnQueue Q xs
    → OnQueue Q ys
    → OnQueue Q (if b then xs else ys)
if-OnQueue Q true xs ys h k = h
if-OnQueue Q false xs ys h k = k

insert-OnQueue :
    (Q : ℕ → Type 0) (message j : ℕ) (queue : List (ℕ × ℕ))
    → Q j
    → OnQueue Q queue
    → OnQueue Q (insert message j queue)
unfolding OnQueue
insert-OnQueue Q message j [] new hs = (new, tt)
insert-OnQueue Q message j ((m, i) ∷ queue) new (h, hs) =
    if-OnQueue Q (m == message) ((message, j) ∷ queue) ((m, i) ∷ insert message j queue) (new, hs)
      (h, insert-OnQueue Q message j queue new hs)

delete-OnQueue :
    (Q : ℕ → Type 0) (message : ℕ) (queue : List (ℕ × ℕ))
    → OnQueue Q queue
    → OnQueue Q (delete message queue)
unfolding OnQueue
delete-OnQueue Q message [] hs = tt
delete-OnQueue Q message ((m, i) ∷ queue) (h, hs) =
    if-OnQueue Q (m == message) (delete message queue) ((m, i) ∷ delete message queue)
      (delete-OnQueue Q message queue hs) (h, delete-OnQueue Q message queue hs)

if-OnSome :
    (Q : ℕ → Type 0) (b : Bool) (x y : Option ℕ)
    → OnSome Q x
    → OnSome Q y
    → OnSome Q (if b then x else y)
if-OnSome Q true x y h k = h
if-OnSome Q false x y h k = k

lookup-OnSome :
    (Q : ℕ → Type 0) (message : ℕ) (queue : List (ℕ × ℕ))
    → OnQueue Q queue
    → OnSome Q (lookup message queue)
unfolding OnQueue OnSome
lookup-OnSome Q message [] hs = tt
lookup-OnSome Q message ((m, i) ∷ queue) (h, hs) =
    if-OnSome Q (m == message) (some i) (lookup message queue) h (lookup-OnSome Q message queue hs)

-- Every timing that a state names is there and is counted.
unfoldable pub Known : TurnLatency → Type 0
Known l = OnSome (At IsCounted l.timings) l.current × OnQueue (At IsCounted l.timings) l.queued

create-IsCounted : (attempt now : ℕ) → IsCounted (create attempt now)
unfolding create
create-IsCounted attempt now = refl

begin-Known :
    (mode : SessionMode) (i : ℕ) (l : TurnLatency)
    → At IsCounted l.timings i
    → OnQueue (At IsCounted l.timings) l.queued
    → Known (begin mode i l)
unfolding Known OnSome begin
begin-Known mode i l h hs =
    let keep = begin-At step-IsCounted (λ t mode h. h) mode i l in
    (keep i h, map-OnQueue keep l.queued hs)

begin_new-Known :
    (mode : SessionMode) (now : ℕ) (l : TurnLatency)
    → Known l
    → let (i, l') = create_timing 0 now l in Known (begin mode i l')
unfolding Known create_timing
begin_new-Known mode now l (h, hs) =
    let (i, l') = create_timing 0 now l in
    begin-Known mode i l' (last-At IsCounted l.timings (create 0 now) (create-IsCounted 0 now))
      (map-OnQueue (append-At IsCounted l.timings (create 0 now ∷ [])) l.queued hs)

enqueue_new-Known :
    (found : Option ℕ) (message : ℕ) (retry : Bool) (now : ℕ) (l : TurnLatency)
    → Known l
    → Known (enqueue_new found message retry now l)
unfolding Known enqueue_new create_timing
enqueue_new-Known (some i) message retry now l h = h
enqueue_new-Known none message retry now l (h, hs) =
    let attempt = next_attempt retry l in
    let keep = append-At IsCounted l.timings (create attempt now ∷ []) in
    (
      map-OnSome keep l.current h,
      insert-OnQueue _ message (length l.timings) l.queued
          (last-At IsCounted l.timings (create attempt now) (create-IsCounted attempt now))
          (map-OnQueue keep l.queued hs),
    )

activate_found-Known :
    (found : Option ℕ) (message : ℕ) (mode : SessionMode) (now : ℕ) (l : TurnLatency)
    → OnSome (At IsCounted l.timings) found
    → Known l
    → let (i, l') = or_create found now l in
      Known (begin mode i (record l' { queued = delete message l'.queued }))
unfolding Known or_create OnSome create_timing
activate_found-Known (some i) message mode now l k (h, hs) =
    begin-Known mode i (record l { queued = delete message l.queued }) k
      (delete-OnQueue (At IsCounted l.timings) message l.queued hs)
activate_found-Known none message mode now l k (h, hs) =
    begin_new-Known mode now (record l { queued = delete message l.queued })
      (h, delete-OnQueue (At IsCounted l.timings) message l.queued hs)

ensure_current-Known :
    (mode : SessionMode) (now : ℕ) (l : TurnLatency) (found : Option ℕ)
    → Known l
    → Known ((ensure_current found mode now l).1)
unfolding ensure_current
ensure_current-Known mode now l (some i) h = h
ensure_current-Known mode now l none h = begin_new-Known mode now l h

act-Known : (l : TurnLatency) (op : ℕ × Op) → Known l → Known (act l op)
unfolding Known act enqueue activate ensure boot_ready_in discard finish_all OnQueue
act-Known l (now, enqueues message retry) h =
    enqueue_new-Known (lookup message l.queued) message retry now l h
act-Known l (now, activates message mode) (h, hs) =
    activate_found-Known (lookup message l.queued) message mode now l
      (lookup-OnSome (At IsCounted l.timings) message l.queued hs) (h, hs)
act-Known l (now, ensures mode) h = ensure_current-Known mode now l l.current h
act-Known l (now, next_boots ms) h = h
act-Known l (now, discards message reason) (h, hs) =
    let keep = act-At step-IsCounted (λ t mode k. k) l (now, discards message reason) in
    (map-OnSome keep l.current h, delete-OnQueue _ message l.queued (map-OnQueue keep l.queued hs))
act-Known l (now, finishes reason killed_by kind) (h, hs) = (
  map-OnSome (act-At step-IsCounted (λ t mode k. k) l (now, finishes reason killed_by kind))
      l.current h,
  tt,
)
act-Known l (now, calls j call) (h, hs) =
    let keep = act-At step-IsCounted (λ t mode k. k) l (now, calls j call) in
    (map-OnSome keep l.current h, map-OnQueue keep l.queued hs)

pub acts-Known : (ops : List (ℕ × Op)) (l : TurnLatency) → Known l → Known (acts l ops)
unfolding acts
acts-Known [] l h = h
acts-Known (op ∷ ops) l h = acts-Known ops (act l op) (act-Known l op h)
