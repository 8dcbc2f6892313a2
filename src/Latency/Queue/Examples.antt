-- ===== src/Latency/Queue/Examples.antt =====
-- Tests and witnesses of the timings of a queue.
use the_dudes_daemon.Base.{ℕ, ◌≡◌, refl, true, false, none, some, List, [], ◌∷◌, length, map}
use the_dudes_daemon.Latency.{
  cold, resume, stopped, stop, drained, error, starts, ends, create, set_boot_ms, start, report,
  finish, step,
}
use the_dudes_daemon.Latency.Queue.{
  new, timing_at, change, change_some, change_each, create_timing, next_attempt, enqueue_new,
  enqueue, set_next_boot, or_create, begin, activate, ensure_current, ensure, boot_ready_in,
  discard, finish_all, Op, enqueues, activates, next_boots, discards, calls, act, acts,
}
use the_dudes_daemon.Latency.Queue.Places.{At}
use the_dudes_daemon.Latency.Queue.Known.{OnSome, OnQueue}
use the_dudes_daemon.Latency.Queue.Reports.{IsReported, acts-IsReported}

opened_queue : Unit {0}
unfolding create set_boot_ms start finish report step create_timing next_attempt enqueue_new enqueue
    change change_some change_each set_next_boot or_create begin activate ensure_current ensure
    boot_ready_in discard finish_all act acts new timing_at
opened_queue = tt

-- Two messages wait, the first one starts, and a third comes as a retry.
abbrev queue_before : List (ℕ × Op)
queue_before =
    (10, enqueues 1 false)
    ∷ (11, enqueues 2 false)
    ∷ (12, enqueues 1 false)
    ∷ (13, next_boots 7)
    ∷ (14, activates 1 cold)
    ∷ (15, calls 0 starts)
    ∷ (16, enqueues 3 true)
    ∷ []

abbrev queue_after : List (ℕ × Op)
queue_after =
    (31, calls 0 (ends error none none)) ∷ (32, activates 2 resume) ∷ (33, discards 3 drained) ∷ []

queue_test :
    let l = acts new queue_before in
    (l.current ≡ some 0)
    × (l.queued ≡ (2, 1) ∷ (3, 2) ∷ [])
    × (map (λ t. t.attempt) l.timings ≡ 0 ∷ 0 ∷ 1 ∷ [])
    × (map (λ t. t.boot_ms) l.timings ≡ some 7 ∷ none ∷ none ∷ [])
    × (map
          (λ t. length t.emitted)
          (acts (finish_all stopped (some stop) none 30 l) queue_after).timings
        ≡ 1 ∷ 1 ∷ 1 ∷ 0 ∷ [])
unfolding opened_queue
queue_test = (refl, refl, refl, refl, refl)

acts-IsReported_example :
    let l = acts new queue_before in
    let ts = (acts (finish_all stopped (some stop) none 30 l) queue_after).timings in
    OnSome (At IsReported ts) l.current × OnQueue (At IsReported ts) l.queued
acts-IsReported_example = acts-IsReported queue_before queue_after stopped (some stop) none 30
