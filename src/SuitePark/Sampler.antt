-- ===== src/SuitePark/Sampler.antt =====
-- src/suite-park.ts: the periodic sampler as a machine. A tick waits for `ps` and then for the reaper;
-- the events are what resumes it. `ps_answered now rows` is the answer of `ps` with `Date.now()`.
pub mod Ticks
pub mod Kills
use Prim.Native.String.{String}
use text.Mathlib.Text.{find?}
use the_dudes_daemon.Base.{
  ℕ, zero, suc, ◌+◌, Bool, true, false, Option, none, some, List, [], ◌∷◌, ◌++◌, leb, if◌then◌else◌,
  map, filter, length, keep_last,
}
use the_dudes_daemon.SuitePark.Tree.{ProcRow, Suite, collect_suites}
use the_dudes_daemon.SuitePark.Assess.{
  Sample, sample_of, Assessment, AssessOpts, assess_suites, is_hung,
}

pub record SuiteParkOpts : Type 0 where
  pub sample_ms : ℕ
  pub flat_window_ms : ℕ
  pub min_age_ms : ℕ
  pub max_cpu_delta_ms : ℕ
  pub grace_ms : ℕ
  pub history_max : ℕ

abbrev pub suite_park_defaults : SuiteParkOpts
suite_park_defaults = record {
  sample_ms = 60000;
  flat_window_ms = 180000;
  min_age_ms = 600000;
  max_cpu_delta_ms = 1000;
  grace_ms = 2000;
  history_max = 30;
}

-- A variable's value as `Number` reads it, `none` where it is missing, blank, negative or not finite.
abbrev pub or_default : Option ℕ → ℕ → ℕ
or_default none fallback = fallback
or_default (some n) fallback = n

pub suite_park_opts_from_env : (String → Option ℕ) → SuiteParkOpts
suite_park_opts_from_env env =
    let d = suite_park_defaults in
    record {
      sample_ms = or_default (env "THE_DUDES_SUITE_PARK_SAMPLE_MS") d.sample_ms;
      flat_window_ms = or_default (env "THE_DUDES_SUITE_PARK_FLAT_MS") d.flat_window_ms;
      min_age_ms = or_default (env "THE_DUDES_SUITE_PARK_MIN_AGE_MS") d.min_age_ms;
      max_cpu_delta_ms =
          or_default (env "THE_DUDES_SUITE_PARK_MAX_CPU_DELTA_MS") d.max_cpu_delta_ms;
      grace_ms = or_default (env "THE_DUDES_SUITE_PARK_GRACE_MS") d.grace_ms;
      history_max = d.history_max;
    }

pub record Entry : Type 0 where
  pub at : ℕ
  pub sample : Sample

pub data Awaits : Type 0 where
  idle sampling reaping : Awaits

-- `parado` is `stopped`, `emCurso` is `in_course`; `awaits` is where the tick in course stands.
pub record Sampler : Type 0 where
  pub history : List Entry
  pub in_course : Bool
  pub stopped : Bool
  pub awaits : Awaits

pub data Event : Type 0 where
  ticked : Event
  ps_answered : ℕ → List ProcRow → Event
  ps_failed : Event
  reaped : Event
  stop : Event

-- `kills` is the call of `reapSuitesAsync`; `loops` is a walk that does not end.
pub data Outcome : Type 0 where
  nothing skipped loops threw : Outcome
  judged : List Assessment → Outcome
  kills : List Suite → List Assessment → Outcome

pub initial : Sampler
initial = record { history = []; in_course = false; stopped = false; awaits = idle }

-- The latest entry that is at least `window` old; the history has the oldest first.
pub baseline_of : ℕ → ℕ → List Entry → Option Sample
baseline_of now window [] = none
baseline_of now window (e ∷ later) = elim (baseline_of now window later) [
  | some s ↦ some s
  | none ↦ if leb (e.at + window) now then some e.sample else none
]

suites_of : List Assessment → List Suite
suites_of assessments = map (λ (a : Assessment). a.suite) (filter is_hung assessments)

after_verdict : Bool → Sampler → List Assessment → List Suite → Sampler × Outcome
after_verdict true s assessments hung =
    (record s { in_course = false; awaits = idle }, judged assessments)
after_verdict false s assessments [] =
    (record s { in_course = false; awaits = idle }, judged assessments)
after_verdict false s assessments (x ∷ hung) =
    (record s { awaits = reaping }, kills (x ∷ hung) assessments)

unfoldable pub assess_opts : SuiteParkOpts → AssessOpts
assess_opts o = record {
  min_age_ms = o.min_age_ms;
  max_cpu_delta_ms = o.max_cpu_delta_ms;
  window_ms = o.flat_window_ms;
}

pub record_sample : SuiteParkOpts → ℕ → List ProcRow → List Entry → List Entry
record_sample o now rows history =
    keep_last o.history_max (history ++ record { at = now; sample = sample_of rows } ∷ [])

with_suites : SuiteParkOpts → ℕ → List ProcRow → Sampler → Option (List Suite) → Sampler × Outcome
unfolding after_verdict assess_opts record_sample suites_of baseline_of
with_suites o now rows s none = (s, loops)
with_suites o now rows s (some suites) =
    let assessments =
      assess_suites suites (baseline_of now o.flat_window_ms s.history) (assess_opts o) in
    after_verdict s.stopped (record s { history = record_sample o now rows s.history }) assessments
      (suites_of assessments)

-- What `tickInner` does when `ps` answers.
on_rows : ℕ → SuiteParkOpts → ℕ → ℕ → List ProcRow → Sampler → Bool → Sampler × Outcome
unfolding with_suites
on_rows fuel o own_pid now rows s true = (record s { in_course = false; awaits = idle }, judged [])
on_rows fuel o own_pid now rows s false =
    with_suites o now rows s (collect_suites fuel rows own_pid)

resume : ℕ → SuiteParkOpts → ℕ → Event → Sampler → Awaits → Sampler × Outcome
unfolding on_rows
resume fuel o own_pid (ps_answered now rows) s sampling =
    on_rows fuel o own_pid now rows s s.stopped
resume fuel o own_pid ps_failed s sampling = (record s { in_course = false; awaits = idle }, threw)
resume fuel o own_pid reaped s reaping = (record s { in_course = false; awaits = idle }, nothing)
resume fuel o own_pid event s awaits = (s, nothing)

unless_in_course : Bool → Sampler → Sampler × Outcome
unless_in_course true s = (s, skipped)
unless_in_course false s = (record s { in_course = true; awaits = sampling }, nothing)

tick : Sampler → Sampler × Outcome
unfolding unless_in_course
tick s = unless_in_course s.in_course s

pub step : ℕ → SuiteParkOpts → ℕ → Event → Sampler → Sampler × Outcome
unfolding resume tick
step fuel o own_pid ticked s = tick s
step fuel o own_pid stop s = (record s { stopped = true }, nothing)
step fuel o own_pid event s = resume fuel o own_pid event s s.awaits

-- The outcomes of a run of events, with the state that each leaves.
pub run : ℕ → SuiteParkOpts → ℕ → List Event → Sampler → Sampler × List Outcome
unfolding step
run fuel o own_pid [] s = (s, [])
run fuel o own_pid (event ∷ events) s =
    let (s', outcome) = step fuel o own_pid event s in
    let (final, outcomes) = run fuel o own_pid events s' in (final, outcome ∷ outcomes)
