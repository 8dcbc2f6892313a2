-- ===== src/Health/Totals.antt =====
-- The totals and the runners' own counters.
use Prim.Native.String.{String}
use the_dudes_daemon.Base.{
  ℕ, ◌+◌, ◌≤◌, ◌≡◌, true, false, List, [], ◌∷◌, ◌++◌, arith, none, lookup, insert,
  comparable_string, length, length-keep_last,
}
use the_dudes_daemon.Health.{
  TurnCounters, Monitor, log_cap, duration_cap, counters, or_zero, bump, keep_duration, create,
  record_log, record_turn_start, record_turn_end, record_hang, record_hard_recover,
  record_hard_recover_notified, record_ws_rtt, Event, logs, starts, hangs, recovers, notifies, ends,
  pongs, step, run, Counter, starting, succeeding, failing, recovering, notifying, hanging,
  increment,
}

-- The sum of one counter over the runners.
abbrev pub sum_of : (TurnCounters → ℕ) → List (String × TurnCounters) → ℕ
sum_of f [] = 0
sum_of f ((runner, c) ∷ m) = f c + sum_of f m

sum_of-insert :
    (f : TurnCounters → ℕ) (runner : String) (c : TurnCounters) (m : List (String × TurnCounters))
    → f (or_zero none) ≡ 0
    → sum_of f (insert runner c m) + f (or_zero (lookup runner m)) ≡ f c + sum_of f m
sum_of-insert f runner c [] h = omega (arith, h)
sum_of-insert f runner c ((other, d) ∷ m) h = ground (arith, sum_of-insert f runner c m h)

abbrev pub reading : Counter → TurnCounters → ℕ
reading starting c = c.started
reading succeeding c = c.ok
reading failing c = c.failed
reading recovering c = c.hard_recovers
reading notifying c = c.hard_recovers_notified
reading hanging c = c.hangs

-- The totals are the sums over the runners, and the two histories are within their ceilings.
pub record IsBalanced (h : Monitor) : Type 0 where
  pub sums : (k : Counter) → reading k h.total ≡ sum_of (reading k) h.by_runner
  pub lines : length h.ring ≤ log_cap
  pub times : length h.durations ≤ duration_cap

-- How far a counter moves when another, or itself, is incremented.
abbrev moves : Counter → Counter → ℕ
moves starting starting = 1
moves succeeding succeeding = 1
moves failing failing = 1
moves recovering recovering = 1
moves notifying notifying = 1
moves hanging hanging = 1
moves _ _ = 0

reading-increment :
    (k j : Counter) (c : TurnCounters) → reading k (increment j c) ≡ reading k c + moves k j
reading-increment k j c = ground arith

reading-none : (k : Counter) → reading k (or_zero none) ≡ 0
reading-none k = ground arith

bump-sums :
    (j : Counter) (runner : String) (h : Monitor)
    → IsBalanced h
    → (k : Counter)
    → reading k (bump j runner h).total ≡ sum_of (reading k) (bump j runner h).by_runner
bump-sums j runner h b k =
    let c = counters runner h in
    omega (
      arith,
      b.sums k,
      reading-increment k j h.total,
      reading-increment k j c,
      sum_of-insert (reading k) runner (increment j c) h.by_runner (reading-none k),
    )

bump-IsBalanced :
    (j : Counter) (runner : String) (h : Monitor) → IsBalanced h → IsBalanced (bump j runner h)
bump-IsBalanced j runner h b = record {
  sums = bump-sums j runner h b;
  lines = b.lines;
  times = b.times;
}

keep_duration-IsBalanced : (ms : ℕ) (h : Monitor) → IsBalanced h → IsBalanced (keep_duration ms h)
keep_duration-IsBalanced ms h b = record {
  sums = b.sums;
  lines = b.lines;
  times = omega (arith, length-keep_last duration_cap (h.durations ++ ms ∷ []));
}

step-IsBalanced : (h : Monitor) (e : ℕ × Event) → IsBalanced h → IsBalanced (step h e)
unfolding step record_log record_turn_start record_turn_end record_hang record_hard_recover
    record_hard_recover_notified record_ws_rtt
step-IsBalanced h (now, logs level msg) b = record {
  sums = b.sums;
  lines = omega (
    arith,
    length-keep_last log_cap (h.ring ++ record { ts = now; level = level; msg = msg } ∷ []),
  );
  times = b.times;
}
step-IsBalanced h (now, starts runner) b = bump-IsBalanced starting runner h b
step-IsBalanced h (now, hangs runner) b = bump-IsBalanced hanging runner h b
step-IsBalanced h (now, recovers runner) b = bump-IsBalanced recovering runner h b
step-IsBalanced h (now, notifies runner) b = bump-IsBalanced notifying runner h b
step-IsBalanced h (now, ends runner ms true) b =
    keep_duration-IsBalanced ms (bump succeeding runner h) (bump-IsBalanced succeeding runner h b)
step-IsBalanced h (now, ends runner ms false) b =
    keep_duration-IsBalanced ms (bump failing runner h) (bump-IsBalanced failing runner h b)
step-IsBalanced h (now, pongs ms) b = record { sums = b.sums; lines = b.lines; times = b.times }

run_from-IsBalanced : (h : Monitor) (es : List (ℕ × Event)) → IsBalanced h → IsBalanced (run h es)
unfolding run
run_from-IsBalanced h [] b = b
run_from-IsBalanced h (e ∷ es) b = run_from-IsBalanced (step h e) es (step-IsBalanced h e b)

-- After any sequence of records, every total is the sum of the runners' counters of that name, at
-- most 600 log lines are held, and at most 200 durations.
pub run-create-IsBalanced : (es : List (ℕ × Event)) → IsBalanced (run create es)
unfolding create
run-create-IsBalanced es =
    run_from-IsBalanced create es
      (record { sums = λ k. ground arith; lines = omega arith; times = omega arith })
