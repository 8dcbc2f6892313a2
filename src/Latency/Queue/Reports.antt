-- ===== src/Latency/Queue/Reports.antt =====
-- Every message that waits is reported once.
use the_dudes_daemon.Base.{
  ℕ, ◌≡◌, ap, sym, subst, ◌∙◌, true, Option, none, some, List, [], ◌∷◌, length,
}
use the_dudes_daemon.Latency.{
  Timing, TurnEndReason, KilledBy, RecoverKind, finish, Call, step, ends,
}
use the_dudes_daemon.Latency.Once.{endings, IsCounted, step_ended, finish-IsCounted, step-IsCounted}
use the_dudes_daemon.Latency.Queue.{
  TurnLatency, new, change, change_some, change_each, finish_all, Op, acts,
}
use the_dudes_daemon.Latency.Queue.Places.{
  At, change-At, change-here, change_some-At, change_each-At, acts-At,
}
use the_dudes_daemon.Latency.Queue.Known.{
  OnSome, OnQueue, map-OnSome, map-OnQueue, Known, acts-Known,
}

pub IsReported : Timing → Type 0
IsReported t = (t.ended ≡ true) × (length t.emitted ≡ 1)

step-IsReported : (t : Timing) (c : ℕ × Call) → IsReported t → IsReported (step t c)
unfolding IsReported
step-IsReported t c (ended, once) = subst IsReported (sym (step_ended t c ended)) (ended, once)

module _ (reason : TurnEndReason) (killed_by : Option KilledBy) (kind : Option RecoverKind)
    (now : ℕ) where
  finish-IsReported : (t : Timing) → IsCounted t → IsReported (finish reason killed_by kind now t)
  unfolding IsReported
  finish-IsReported t h =
      let (counted, ended) = finish-IsCounted reason killed_by kind now t h in
      (ended, counted ∙ ap endings ended)

  keeps : (t : Timing) → IsReported t → IsReported (finish reason killed_by kind now t)
  unfolding step
  keeps t = step-IsReported t (now, ends reason killed_by kind)

  counts : (t : Timing) → IsCounted t → IsCounted (finish reason killed_by kind now t)
  unfolding step
  counts t = step-IsCounted t (now, ends reason killed_by kind)

  change_some-IsReported :
      (o : Option ℕ) (ts : List Timing)
      → OnSome (At IsCounted ts) o
      → OnSome (At IsReported (change_some o (finish reason killed_by kind now) ts)) o
  unfolding OnSome change_some
  change_some-IsReported none ts h = tt
  change_some-IsReported (some i) ts h =
      change-here IsCounted IsReported (finish reason killed_by kind now) finish-IsReported ts i h

  change_each-IsReported :
      (queue : List (ℕ × ℕ)) (ts : List Timing)
      → OnQueue (At IsCounted ts) queue
      → OnQueue (At IsReported (change_each queue (finish reason killed_by kind now) ts)) queue
  unfolding OnQueue change_each
  change_each-IsReported [] ts h = tt
  change_each-IsReported ((message, i) ∷ queue) ts (h, hs) =
      let f = finish reason killed_by kind now in
      (
        change_each-At f keeps queue (change i f ts) i
            (change-here IsCounted IsReported f finish-IsReported ts i h),
        change_each-IsReported queue (change i f ts)
            (map-OnQueue (change-At f counts i ts) queue hs),
      )

  finish_all_lem :
      (l : TurnLatency)
      → Known l
      → let ts = (finish_all reason killed_by kind now l).timings in
        OnSome (At IsReported ts) l.current × OnQueue (At IsReported ts) l.queued
  unfolding Known finish_all
  finish_all_lem l (h, hs) =
      let f = finish reason killed_by kind now in
      let ts = change_some l.current f l.timings in
      (
        map-OnSome (change_each-At f keeps l.queued ts) l.current
            (change_some-IsReported l.current l.timings h),
        change_each-IsReported l.queued ts
            (map-OnQueue (change_some-At f counts l.current l.timings) l.queued hs),
      )

-- Whatever the runner did before, and whatever it does after a finishAll, the timing of the turn that
-- was current then and those of all messages that waited have ended, and each was reported exactly once.
pub acts-IsReported :
    (before after : List (ℕ × Op)) (reason : TurnEndReason) (killed_by : Option KilledBy)
    (kind : Option RecoverKind) (now : ℕ)
    → let l = acts new before in
      let ts = (acts (finish_all reason killed_by kind now l) after).timings in
      OnSome (At IsReported ts) l.current × OnQueue (At IsReported ts) l.queued
unfolding Known new OnSome OnQueue IsReported
acts-IsReported before after reason killed_by kind now =
    let l = acts new before in
    let l' = finish_all reason killed_by kind now l in
    let keep = acts-At step-IsReported (λ t mode h. h) after l' in
    let (h, hs) = finish_all_lem reason killed_by kind now l (acts-Known before new (tt, tt)) in
    (map-OnSome keep l.current h, map-OnQueue keep l.queued hs)
