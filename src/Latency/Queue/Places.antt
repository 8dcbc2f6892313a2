-- ===== src/Latency/Queue/Places.antt =====
-- The timings of a queue keep what the calls of a timing keep.
use the_dudes_daemon.Base.{
  ℕ, zero, suc, Bool, Option, none, some, List, [], ◌∷◌, ◌++◌, lookup, delete, length,
  comparable_nat,
}
use the_dudes_daemon.Latency.{
  Timing, SessionMode, TurnEndReason, KilledBy, RecoverKind, create, set_boot_ms, finish, Call,
  step, ends, boots_in,
}
use the_dudes_daemon.Latency.Queue.{
  TurnLatency, change, change_some, change_each, set_next_boot, begin, create_timing, or_create,
  enqueue_new, enqueue, activate, ensure_current, ensure, boot_ready_in, discard, finish_all, Op,
  enqueues, activates, ensures, next_boots, discards, finishes, calls, act, acts,
}

-- The timing at an index is there, and P holds of it.
pub At : (Timing → Type 0) → List Timing → ℕ → Type 0
At P [] i = ⊥
At P (t ∷ ts) zero = P t
At P (t ∷ ts) (suc i) = At P ts i

pub append-At : (P : Timing → Type 0) (ts us : List Timing) (i : ℕ) → At P ts i → At P (ts ++ us) i
unfolding At
append-At P [] us i h = elim h [ ]
append-At P (t ∷ ts) us zero h = h
append-At P (t ∷ ts) us (suc i) h = append-At P ts us i h

pub last-At :
    (P : Timing → Type 0) (ts : List Timing) (t : Timing) → P t → At P (ts ++ t ∷ []) (length ts)
unfolding At
last-At P [] t h = h
last-At P (_ ∷ ts) t h = last-At P ts t h

pub change-At :
    {P : Timing → Type 0} (f : Timing → Timing) (keep : (t : Timing) → P t → P (f t)) (j : ℕ)
    (ts : List Timing) (i : ℕ)
    → At P ts i
    → At P (change j f ts) i
unfolding At change
change-At f keep j [] i h = elim h [ ]
change-At f keep zero (t ∷ ts) zero h = keep t h
change-At f keep zero (t ∷ ts) (suc i) h = h
change-At f keep (suc j) (t ∷ ts) zero h = h
change-At f keep (suc j) (t ∷ ts) (suc i) h = change-At f keep j ts i h

-- The call reaches the timing at its index.
pub change-here :
    (P Q : Timing → Type 0) (f : Timing → Timing) (reach : (t : Timing) → P t → Q (f t))
    (ts : List Timing) (i : ℕ)
    → At P ts i
    → At Q (change i f ts) i
unfolding At change
change-here P Q f reach [] i h = elim h [ ]
change-here P Q f reach (t ∷ ts) zero h = reach t h
change-here P Q f reach (t ∷ ts) (suc i) h = change-here P Q f reach ts i h

pub change_some-At :
    {P : Timing → Type 0} (f : Timing → Timing) (keep : (t : Timing) → P t → P (f t)) (o : Option ℕ)
    (ts : List Timing) (i : ℕ)
    → At P ts i
    → At P (change_some o f ts) i
unfolding change_some
change_some-At f keep none ts i h = h
change_some-At f keep (some j) ts i h = change-At f keep j ts i h

pub change_each-At :
    {P : Timing → Type 0} (f : Timing → Timing) (keep : (t : Timing) → P t → P (f t))
    (queue : List (ℕ × ℕ)) (ts : List Timing) (i : ℕ)
    → At P ts i
    → At P (change_each queue f ts) i
unfolding change_each
change_each-At f keep [] ts i h = h
change_each-At f keep ((m, j) ∷ queue) ts i h =
    change_each-At f keep queue (change j f ts) i (change-At f keep j ts i h)

module _ {P : Timing → Type 0} (closed : (t : Timing) (c : ℕ × Call) → P t → P (step t c))
    (moded : (t : Timing) (mode : SessionMode)
      → P t
      → P (record t { session_mode = some mode })) where
  set_next_boot-At :
      (ms : Option ℕ) (j : ℕ) (ts : List Timing) (i : ℕ)
      → At P ts i
      → At P (set_next_boot ms j ts) i
  unfolding set_next_boot step
  set_next_boot-At none j ts i h = h
  set_next_boot-At (some ms) j ts i h =
      change-At (set_boot_ms ms) (λ t. closed t (0, boots_in ms)) j ts i h

  pub begin-At :
      (mode : SessionMode) (j : ℕ) (l : TurnLatency) (i : ℕ)
      → At P l.timings i
      → At P (begin mode j l).timings i
  unfolding begin
  begin-At mode j l i h =
      set_next_boot-At l.next_boot_ms j
        (change j (λ t. record t { session_mode = some mode }) l.timings) i
        (change-At (λ t. record t { session_mode = some mode }) (λ t. moded t mode) j l.timings i h)

  pub or_create-At :
      (found : Option ℕ) (now : ℕ) (l : TurnLatency) (i : ℕ)
      → At P l.timings i
      → At P ((or_create found now l).1).timings i
  unfolding or_create create_timing
  or_create-At (some j) now l i h = h
  or_create-At none now l i h = append-At P l.timings (create 0 now ∷ []) i h

  enqueue_new-At :
      (found : Option ℕ) (message : ℕ) (retry : Bool) (now : ℕ) (l : TurnLatency) (i : ℕ)
      → At P l.timings i
      → At P (enqueue_new found message retry now l).timings i
  unfolding enqueue_new create_timing
  enqueue_new-At (some _) message retry now l i h = h
  enqueue_new-At none message retry now l i h = append-At P l.timings _ i h

  ensure_current-At :
      (found : Option ℕ) (mode : SessionMode) (now : ℕ) (l : TurnLatency) (i : ℕ)
      → At P l.timings i
      → At P ((ensure_current found mode now l).1).timings i
  unfolding ensure_current create_timing
  ensure_current-At (some j) mode now l i h = h
  ensure_current-At none mode now l i h =
      let (j, l') = create_timing 0 now l in
      begin-At mode j l' i (append-At P l.timings (create 0 now ∷ []) i h)

  finish-closed :
      (reason : TurnEndReason) (killed_by : Option KilledBy) (kind : Option RecoverKind) (now : ℕ)
      (t : Timing)
      → P t
      → P (finish reason killed_by kind now t)
  unfolding step
  finish-closed reason killed_by kind now t = closed t (now, ends reason killed_by kind)

  pub act-At :
      (l : TurnLatency) (op : ℕ × Op) (i : ℕ) → At P l.timings i → At P (act l op).timings i
  unfolding act enqueue activate ensure boot_ready_in discard finish_all
  act-At l (now, enqueues message retry) i h =
      enqueue_new-At (lookup message l.queued) message retry now l i h
  act-At l (now, activates message mode) i h =
      let (j, l') = or_create (lookup message l.queued) now l in
      begin-At mode j (record l' { queued = delete message l'.queued }) i
        (or_create-At (lookup message l.queued) now l i h)
  act-At l (now, ensures mode) i h = ensure_current-At l.current mode now l i h
  act-At l (now, next_boots ms) i h = h
  act-At l (now, discards message reason) i h =
      change_some-At (finish reason none none now) (finish-closed reason none none now)
        (lookup message l.queued) l.timings i h
  act-At l (now, finishes reason killed_by kind) i h =
      let f = finish reason killed_by kind now in
      change_each-At f (finish-closed reason killed_by kind now) l.queued
        (change_some l.current f l.timings) i
        (change_some-At f (finish-closed reason killed_by kind now) l.current l.timings i h)
  act-At l (now, calls j call) i h =
      change-At (λ t. step t (now, call)) (λ t. closed t (now, call)) j l.timings i h

  pub acts-At :
      (ops : List (ℕ × Op)) (l : TurnLatency) (i : ℕ)
      → At P l.timings i
      → At P (acts l ops).timings i
  unfolding acts
  acts-At [] l i h = h
  acts-At (op ∷ ops) l i h = acts-At ops (act l op) i (act-At l op i h)
