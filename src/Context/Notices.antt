-- ===== src/Context/Notices.antt =====
-- How often the owner is warned of a filling context and a compaction is asked for.
use the_dudes_daemon.Base.{
  ℕ, ◌+◌, ◌*◌, ◌≤◌, ◌≡◌, refl, inl, inr, ◌∙◌, Bool, true, false, not, ◌&&◌, Option, none, List, [],
  ◌∷◌, arith, leb, ltb, count, Bool-cases, comparable_nat, comparable_string, ◌==◌,
}
use the_dudes_daemon.Context.{
  Notice, usage, warning, full, error, Tracker, Resolver, context_full_cooldown_ms,
  max_compact_fail_streak, set_resolved_model, set_catalog_limit, notify_full, check_full_error,
  register_compact_failure, report_occupancy, report_usage, alarm, measured, limit, reset, Call,
  models, catalogs, occupies, uses, fails, compacts, step, run, window, context_tokens_of,
}

-- The times of `onFull`, the newest first.
abbrev pub fulls : List Notice → List ℕ
fulls [] = []
fulls (full now ∷ ns) = now ∷ fulls ns
fulls (usage _ _ ∷ ns) = fulls ns
fulls (warning _ _ ∷ ns) = fulls ns
fulls (error _ ∷ ns) = fulls ns

abbrev pub warns : Notice → Bool
warns (warning _ _) = true
warns (usage _ _) = false
warns (full _) = false
warns (error _) = false

abbrev pub Apart : List ℕ → Type 0
Apart [] = Unit {0}
Apart (x ∷ []) = Unit {0}
Apart (x ∷ y ∷ ys) = (y + context_full_cooldown_ms ≤ x) × Apart (y ∷ ys)

abbrev Below : ℕ → List ℕ → Type 0
Below last [] = Unit {0}
Below last (x ∷ xs) = x ≤ last

Apart-cons :
    (now last : ℕ) (xs : List ℕ)
    → last + context_full_cooldown_ms ≤ now
    → Below last xs
    → Apart xs
    → Apart (now ∷ xs)
Apart-cons now last [] h b a = tt
Apart-cons now last (x ∷ xs) h b a = (omega arith, a)

abbrev most_warnings : Bool → ℕ
most_warnings true = 1
most_warnings false = 0

record IsQuiet (t : Tracker) : Type 0 where
  apart : Apart (fulls t.observed)
  below : Below t.last_full_at (fulls t.observed)
  once : count warns t.observed ≤ most_warnings t.warned

notify_full-IsQuiet : (now : ℕ) (t : Tracker) → IsQuiet t → IsQuiet (notify_full now t)
unfolding notify_full
notify_full-IsQuiet now t q =
    elim (Bool-cases (leb max_compact_fail_streak t.compact_fail_streak)) [
      | inl suspended ↦ rw suspended q
      | inr free ↦ elim (Bool-cases (ltb now (t.last_full_at + context_full_cooldown_ms))) [
        | inl early ↦ rw (free, early) q
        | inr late ↦
            rw (free, late)
              (record {
                apart =
                    Apart-cons now t.last_full_at (fulls t.observed) (ground arith) q.below q.apart;
                below = omega arith;
                once = q.once;
              })
      ]
    ]

module _ (resolve_limit : Resolver ℕ) (resolve_limit_known : Option (Resolver (Option ℕ))) where
  alarm-IsQuiet :
      (window now : ℕ) (t : Tracker)
      → IsQuiet t
      → IsQuiet (alarm resolve_limit resolve_limit_known window now t)
  unfolding alarm
  alarm-IsQuiet window now t q = elim (Bool-cases (t.used == 0)) [
    | inl none_used ↦ rw none_used q
    | inr some_used ↦ elim (Bool-cases (leb window t.used)) [
      | inl is_full ↦ rw (some_used, is_full) (notify_full-IsQuiet now t q)
      | inr room ↦ elim (Bool-cases (leb (85 * window) (100 * t.used) && not t.warned)) [
        | inl first ↦
            let once : count warns t.observed ≤ 0 = ground (arith, q.once) in
            rw (some_used, room, first)
              (record { apart = q.apart; below = q.below; once = omega arith })
        | inr quiet ↦ rw (some_used, room, quiet) q
      ]
    ]
  ]

  report_occupancy-IsQuiet :
      (used : ℕ) (hint : Option ℕ) (now : ℕ) (t : Tracker)
      → IsQuiet t
      → IsQuiet (report_occupancy resolve_limit resolve_limit_known used hint now t)
  unfolding report_occupancy measured
  report_occupancy-IsQuiet used hint now t q =
      alarm-IsQuiet (window resolve_limit resolve_limit_known hint t) now
        (measured resolve_limit resolve_limit_known used hint t)
        (record { apart = q.apart; below = q.below; once = q.once })

  step-IsQuiet :
      (t : Tracker) (c : ℕ × Call resolve_limit resolve_limit_known)
      → IsQuiet t
      → IsQuiet (step resolve_limit resolve_limit_known t c)
  unfolding step set_resolved_model set_catalog_limit report_usage check_full_error
      register_compact_failure
  step-IsQuiet t (now, models model) q = elim (Bool-cases (model == "")) [
    | inl e ↦ rw e q
    | inr e ↦ rw e (record { apart = q.apart; below = q.below; once = q.once })
  ]
  step-IsQuiet t (now, catalogs limit) q = elim (Bool-cases (ltb 0 limit)) [
    | inl e ↦ rw e (record { apart = q.apart; below = q.below; once = q.once })
    | inr e ↦ rw e q
  ]
  step-IsQuiet t (now, occupies used hint) q = report_occupancy-IsQuiet used hint now t q
  step-IsQuiet t (now, uses delta semantics) q =
      elim (Bool-cases (ltb 0 (context_tokens_of delta semantics))) [
        | inl e ↦ rw e (report_occupancy-IsQuiet (context_tokens_of delta semantics) none now t q)
        | inr e ↦ rw e q
      ]
  step-IsQuiet t (now, fails true) q = notify_full-IsQuiet now t q
  step-IsQuiet t (now, fails false) q = q
  step-IsQuiet t (now, compacts) q = record { apart = q.apart; below = q.below; once = q.once }

  run-IsQuiet :
      (cs : List (ℕ × Call resolve_limit resolve_limit_known)) (t : Tracker)
      → IsQuiet t
      → IsQuiet (run resolve_limit resolve_limit_known t cs)
  unfolding run
  run-IsQuiet [] t q = q
  run-IsQuiet (c ∷ cs) t q =
      run-IsQuiet cs (step resolve_limit resolve_limit_known t c) (step-IsQuiet t c q)

  -- From a new tracker or a reset one, through any calls until the next reset: at most one warning
  -- is given, and any two compactions in a row are asked for at least two minutes apart.
  pub run-Apart :
      (cs : List (ℕ × Call resolve_limit resolve_limit_known)) (t : Tracker)
      → let t' =
          run resolve_limit resolve_limit_known
            (reset resolve_limit resolve_limit_known (record t { observed = [] }))
            cs in
        Apart (fulls t'.observed) × (count warns t'.observed ≤ 1)
  unfolding reset
  run-Apart cs t =
      let start = reset resolve_limit resolve_limit_known (record t { observed = [] }) in
      let q = run-IsQuiet cs start (record { apart = tt; below = tt; once = omega arith }) in
      (q.apart, ground (arith, q.once))

  suspended_step :
      (t : Tracker) (c : ℕ × Call resolve_limit resolve_limit_known)
      → max_compact_fail_streak ≤ t.compact_fail_streak
      → let t' = step resolve_limit resolve_limit_known t c in
        (max_compact_fail_streak ≤ t'.compact_fail_streak) × (fulls t'.observed ≡ fulls t.observed)
  unfolding step set_resolved_model set_catalog_limit report_usage report_occupancy measured alarm
      check_full_error register_compact_failure notify_full
  suspended_step t (now, models model) h = ground arith
  suspended_step t (now, catalogs limit) h = ground arith
  suspended_step t (now, occupies used hint) h = ground arith
  suspended_step t (now, uses delta semantics) h = ground arith
  suspended_step t (now, fails is_full) h = ground arith
  suspended_step t (now, compacts) h = ground arith

  -- After three failed compactions no further one is asked for, whatever calls come before a reset.
  pub fulls-run :
      (cs : List (ℕ × Call resolve_limit resolve_limit_known)) (t : Tracker)
      → max_compact_fail_streak ≤ t.compact_fail_streak
      → fulls (run resolve_limit resolve_limit_known t cs).observed ≡ fulls t.observed
  unfolding run
  fulls-run [] t h = refl
  fulls-run (c ∷ cs) t h =
      let (k, e) = suspended_step t c h in
      fulls-run cs (step resolve_limit resolve_limit_known t c) k ∙ e
