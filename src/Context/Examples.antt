-- ===== src/Context/Examples.antt =====
-- Tests and witnesses of the context tracker: a window of 1000 tokens.
use the_dudes_daemon.Base.{
  ℕ, ◌+◌, ◌≤◌, arith, ◌≡◌, refl, Option, none, some, List, [], ◌∷◌, count, true,
}
use the_dudes_daemon.Context.{
  usage, warning, full, Resolver, create, reset, limit_out, limit_known_value, report_occupancy,
  Call, occupies, fails, step, run, check_full_error, window, shown, hint_is_real, notify_full,
  alarm, measured,
}
use the_dudes_daemon.Context.Cumulative.{
  Counts, prime, grown, delta, deltas, reported, done, further, Sums, deltas-total,
}
use the_dudes_daemon.Context.Notices.{Apart, fulls, warns, run-Apart}

opened : Unit {0}
unfolding create reset limit_out limit_known_value report_occupancy check_full_error step run window
    shown hint_is_real notify_full alarm measured
opened = tt

abbrev thousand : Resolver ℕ
thousand model catalog = 1000

abbrev unknown : Option (Resolver (Option ℕ))
unknown = some (λ model catalog. none)

abbrev calls : List (ℕ × Call thousand unknown)
calls =
    (200000, occupies 849 none)
    ∷ (200001, occupies 850 none)
    ∷ (200002, occupies 900 none)
    ∷ (200003, occupies 1400 none)
    ∷ (320002, occupies 1000 (some 1000))
    ∷ (320003, fails true)
    ∷ []

tracker_test :
    (run thousand unknown create calls).observed
    ≡ full 320003
      ∷ usage 1000 1000
      ∷ full 200003
      ∷ usage 1000 0
      ∷ usage 900 0
      ∷ warning 850 1000
      ∷ usage 850 0
      ∷ usage 849 0
      ∷ []
unfolding opened
tracker_test = refl

run-Apart_example :
    let t = run thousand unknown (reset thousand unknown (record create { observed = [] })) calls in
    Apart (fulls t.observed) × (count warns t.observed ≤ 1)
run-Apart_example = run-Apart thousand unknown calls create

abbrev reports : List Counts
reports =
    (("input", 10) ∷ ("output", 3) ∷ [])
    ∷ (("input", 25) ∷ [])
    ∷ (("input", 5) ∷ ("output", 4) ∷ [])
    ∷ []

abbrev rising : List Counts
rising = (("input", 10) ∷ ("output", 3) ∷ []) ∷ (("output", 3) ∷ ("input", 25) ∷ []) ∷ []

deltas_test :
    (deltas reports (prime (("input", 2) ∷ []) none)).0
    ≡ (("input", 8) ∷ ("output", 3) ∷ [])
      ∷ (("input", 15) ∷ [])
      ∷ (("input", 0) ∷ ("output", 4) ∷ [])
      ∷ []
unfolding deltas delta grown prime
deltas_test = refl

deltas-total_example :
    (total : ℕ) × Sums "input" (deltas rising (some (("input", 2) ∷ []))).0 total × (2 + total ≡ 25)
deltas-total_example =
    deltas-total "input" (some (("input", 2) ∷ [])) 2 25 rising
      (reported (("input", 2) ∷ []) 2 refl)
      (further 2 10 25 (("input", 10) ∷ ("output", 3) ∷ []) _ refl (omega arith)
        (further 10 25 25 (("output", 3) ∷ ("input", 25) ∷ []) [] refl (omega arith) (done 25)))
