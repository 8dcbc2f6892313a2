-- ===== src/Nudge/Window.antt =====
-- The budget over any window of time.
use the_dudes_daemon.Base.{
  ℕ, ◌≤◌, ◌<◌, ◌≡◌, ◌↔◌, inl, inr, refl, sym, ap, ◌∙◌, Bool, true, List, [], ◌∷◌, ◌++◌, arith, leb,
  ltb, length, length-append, filter, filter-append, length-filter-le, Bool-cases,
}
use the_dudes_daemon.Nudge.{
  Budget, is_recent, plan_hang_recover_nudge, History, start, recover, recovers,
}

-- The clock does not run backwards.
abbrev pub Ordered : ℕ → List (ℕ × ℕ) → Type 0
Ordered last [] = Unit {0}
Ordered last ((now, queue_length) ∷ es) = (last ≤ now) × Ordered now es

-- What is recent later was recent before.
recent_again :
    (w before now : ℕ) (ts : List ℕ)
    → before ≤ now
    → filter (is_recent w now) (filter (is_recent w before) ts) ≡ filter (is_recent w now) ts
recent_again w before now [] h = refl
recent_again w before now (t ∷ ts) h = ground (arith, recent_again w before now ts h)

record IsTracked (b : Budget) (h : History) : Type 0 where
  recent :
      filter (is_recent b.window_ms h.last) h.sent_times
      ≡ filter (is_recent b.window_ms h.last) h.log
  bounded : length h.sent_times ≤ b.max

-- The list that a plan starts from holds the recent nudges.
kept-log :
    (b : Budget) (h : History) (now : ℕ)
    → IsTracked b h
    → h.last ≤ now
    → filter (is_recent b.window_ms now) h.sent_times ≡ filter (is_recent b.window_ms now) h.log
kept-log b h now t k =
    sym (recent_again b.window_ms h.last now h.sent_times k)
    ∙ ap (filter (is_recent b.window_ms now)) t.recent
    ∙ recent_again b.window_ms h.last now h.log k

filter_idem : (p : ℕ → Bool) (ts : List ℕ) → filter p (filter p ts) ≡ filter p ts
filter_idem p [] = refl
filter_idem p (t ∷ ts) = ground (arith, filter_idem p ts)

kept-IsTracked :
    (b : Budget) (h : History) (now : ℕ)
    → IsTracked b h
    → h.last ≤ now
    → let kept = filter (is_recent b.window_ms now) h.sent_times in
      IsTracked b (record { last = now; sent_times = kept; log = h.log })
kept-IsTracked b h now t k =
    let p = is_recent b.window_ms now in
    record {
      recent = filter_idem p h.sent_times ∙ kept-log b h now t k;
      bounded = omega (arith, length-filter-le p h.sent_times, t.bounded);
    }

nudged-IsTracked :
    (b : Budget) (h : History) (now : ℕ)
    → IsTracked b h
    → h.last ≤ now
    → length (filter (is_recent b.window_ms now) h.sent_times) < b.max
    → let kept = filter (is_recent b.window_ms now) h.sent_times in
      IsTracked b (record { last = now; sent_times = kept ++ now ∷ []; log = h.log ++ now ∷ [] })
nudged-IsTracked b h now t k room =
    let p = is_recent b.window_ms now in
    let kept = filter p h.sent_times in
    record {
      recent =
          filter-append p kept (now ∷ [])
          ∙ ap (λ xs. xs ++ filter p (now ∷ [])) (filter_idem p h.sent_times ∙ kept-log b h now t k)
          ∙ sym (filter-append p h.log (now ∷ []));
      bounded = omega (arith, length-append kept (now ∷ []));
    }

recover-IsTracked :
    (b : Budget) (h : History) (now queue_length : ℕ)
    → IsTracked b h
    → h.last ≤ now
    → IsTracked b (recover b h (now, queue_length))
unfolding recover plan_hang_recover_nudge
recover-IsTracked b h now q t k =
    let kept = filter (is_recent b.window_ms now) h.sent_times in
    elim (Bool-cases (ltb 0 q)) [
      | inl waiting ↦ rw waiting (kept-IsTracked b h now t k)
      | inr empty ↦ elim (Bool-cases (leb b.max (length kept))) [
        | inl spent ↦ rw (empty, spent) (kept-IsTracked b h now t k)
        | inr room ↦ rw (empty, room) (nudged-IsTracked b h now t k (ground arith))
      ]
    ]

recovers-IsTracked :
    (b : Budget) (h : History) (es : List (ℕ × ℕ))
    → IsTracked b h
    → Ordered h.last es
    → IsTracked b (recovers b h es)
unfolding recovers
recovers-IsTracked b h [] t o = t
recovers-IsTracked b h ((now, q) ∷ es) t o =
    recovers-IsTracked b (recover b h (now, q)) es (recover-IsTracked b h now q t o.0)
      (unfold recover in o.1)

-- Over any series of hard recovers in the order of time, and at any time not before the last of
-- them, at most `max` of all nudges that were ever planned lie within the window that ends then.
pub recovers-within :
    (b : Budget) (es : List (ℕ × ℕ)) (now : ℕ)
    → Ordered 0 es
    → (recovers b start es).last ≤ now
    → length (filter (is_recent b.window_ms now) (recovers b start es).log) ≤ b.max
unfolding start
recovers-within b es now o h =
    let end = recovers b start es in
    let t = recovers-IsTracked b start es (record { recent = refl; bounded = omega arith }) o in
    omega (
      arith,
      ap length (kept-log b end now t h),
      length-filter-le (is_recent b.window_ms now) end.sent_times,
      t.bounded,
    )

-- The owner is told exactly when nothing waits in the queue and the budget is spent, and a nudge is
-- planned exactly when nothing waits and it is not; never both.
pub plan_lem :
    (b : Budget) (queue_length now : ℕ) (sent_times : List ℕ)
    → let plan = plan_hang_recover_nudge b queue_length now sent_times in
      let used = length (filter (is_recent b.window_ms now) sent_times) in
      ((plan.notify ≡ true) ↔ ((queue_length ≡ 0) × (b.max ≤ used)))
      × ((plan.nudge ≡ true) ↔ ((queue_length ≡ 0) × (used < b.max)))
      × (plan.used ≡ length plan.sent_times)
unfolding plan_hang_recover_nudge
plan_lem b q now ts =
    let kept = filter (is_recent b.window_ms now) ts in
    ground (arith, length-append kept (now ∷ []))
