-- ===== src/SuitePark/Cli.antt =====
-- src/suite-park.ts: the manual command, which measures once or twice, reports and may kill. The texts
-- that it prints are left out; `ps i` is the table that the `i`-th reading gives.
use Prim.Native.String.{String}
use the_dudes_daemon.Base.{
  ℕ, zero, suc, ◌+◌, ◌≡◌, refl, Bool, true, false, not, ◌&&◌, Option, none, some, List, [], ◌∷◌,
  ltb, if◌then◌else◌, any, contains, comparable_string, ◌==◌, ◌>>=◌, map, filter, All, bind-some,
  subst,
}
use the_dudes_daemon.SuitePark.Tree.{ProcRow, Suite, collect_suites}
use the_dudes_daemon.SuitePark.Assess.{
  Sample, sample_of, Assessment, AssessOpts, assess_suites, is_hung, has,
}
use the_dudes_daemon.SuitePark.Assess.Verdict.{Hangs, assess_suites-Hangs}
use the_dudes_daemon.SuitePark.Sampler.{suite_park_defaults, or_default}

pub record SuiteParkCliOpts : Type 0 where
  pub reap : Bool
  pub window_ms : ℕ
  pub min_age_ms : ℕ
  pub grace_ms : ℕ
  pub max_cpu_delta_ms : ℕ

-- What follows the first occurrence of the flag.
after_flag : String → List String → Option String
after_flag flag [] = none
after_flag flag (a ∷ argv) =
    let later = after_flag flag argv in
    if a == flag then elim argv [ [] ↦ none | b ∷ rest ↦ some b ] else later

-- `number` is what `Number` reads, where it is finite and not negative.
numeric : (String → Option ℕ) → List String → String → ℕ → ℕ
unfolding after_flag
numeric number argv flag fallback = or_default (after_flag flag argv >>= number) fallback

pub suite_park_cli_args : (String → Option ℕ) → List String → Option SuiteParkCliOpts
unfolding numeric
suite_park_cli_args number argv =
    let d = suite_park_defaults in
    let reap = contains "--reap-suites" argv in
    if not reap && not (contains "--list-suites" argv)
    then none
    else some (record {
      reap = reap;
      window_ms = numeric number argv "--suite-window-ms" 60000;
      min_age_ms = numeric number argv "--suite-min-age-ms" d.min_age_ms;
      grace_ms = numeric number argv "--suite-grace-ms" d.grace_ms;
      max_cpu_delta_ms = numeric number argv "--suite-max-cpu-delta-ms" d.max_cpu_delta_ms;
    })

pub baseline_incompleta : List Suite → Sample → ℕ → Bool
baseline_incompleta suites base window_ms =
    any (λ (s : Suite). ltb (window_ms + 1000) s.age_ms && not (has s.root_pid base.cpu)) suites

pub cli_assess_opts : SuiteParkCliOpts → AssessOpts
cli_assess_opts o = record {
  min_age_ms = o.min_age_ms;
  max_cpu_delta_ms = o.max_cpu_delta_ms;
  window_ms = o.window_ms;
}

-- A measurement: the suites found, the sample that they were compared with, and the readings made.
pub record Measured : Type 0 where
  pub suites : List Suite
  pub base : Sample
  pub readings : ℕ

settled : Bool → Option Measured → Measured → Option Measured
settled true again m = again
settled false again m = some m

if_told : Bool → List Suite → List Suite
if_told true suites = suites
if_told false suites = []

told :
    (P : Suite → Type 0) (reap : Bool) (suites : List Suite)
    → All P suites
    → All (λ s. (reap ≡ true) × P s) (if_told reap suites)
unfolding if_told
told P true [] h = tt
told P true (s ∷ suites) h = ((refl, h.0), told P true suites h.1)
told P false suites h = tt

module _ (fuel own_pid : ℕ) (ps : ℕ → List ProcRow) where
  -- The loop, with the tries left after this one; the baseline is the reading before.
  pub measure : SuiteParkCliOpts → ℕ → ℕ → Option Measured
  unfolding baseline_incompleta settled
  measure o zero i = do
    suites ← collect_suites fuel (ps (suc i)) own_pid
    some (record { suites = suites; base = sample_of (ps i); readings = suc (suc i) })
  measure o (suc tries) i =
      let again = measure o tries (suc i) in
      do
        suites ← collect_suites fuel (ps (suc i)) own_pid
        settled (baseline_incompleta suites (sample_of (ps i)) o.window_ms) again
            (record { suites = suites; base = sample_of (ps i); readings = suc (suc i) })

  -- The suites that are given to the reaper.
  pub run_suite_park_cli : SuiteParkCliOpts → Option (List Suite)
  unfolding measure cli_assess_opts if_told
  run_suite_park_cli o = do
    m ← measure o 1 0
    some (
        if_told o.reap (
          map (λ (a : Assessment). a.suite)
            (filter is_hung (assess_suites m.suites (some m.base) (cli_assess_opts o)))))

  -- The manual command kills only when it is told to, and only suites that meet the declared criterion
  -- against the sample of its last measurement.
  pub run_suite_park_cli-Hangs :
      (o : SuiteParkCliOpts) {killed : List Suite}
      → run_suite_park_cli o ≡ some killed
      → (m : Measured) × (measure o 1 0 ≡ some m)
        × All (λ s. (o.reap ≡ true) × Hangs s (some m.base) (cli_assess_opts o)) killed
  unfolding run_suite_park_cli
  run_suite_park_cli-Hangs o {killed} e =
      let (m, measured, k) = bind-some (measure o 1 0) _ killed e in
      (
        m,
        measured,
        subst (All (λ s. (o.reap ≡ true) × Hangs s (some m.base) (cli_assess_opts o)))
            {x = if_told o.reap (
              map (λ (a : Assessment). a.suite)
                (filter is_hung (assess_suites m.suites (some m.base) (cli_assess_opts o))))}
            (cc)
            (told (λ s. Hangs s (some m.base) (cli_assess_opts o)) o.reap _
              (assess_suites-Hangs m.suites (some m.base) (cli_assess_opts o))),
      )
