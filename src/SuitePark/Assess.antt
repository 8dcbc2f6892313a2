-- ===== src/SuitePark/Assess.antt =====
-- src/suite-park.ts: the verdict on a suite, from its CPU time in two samples and its runnable
-- processes. A difference of CPU times, which a process that took over a pid can make negative, is
-- kept as its two terms; the text `motivo` is data.
pub mod Verdict
use text.Mathlib.Text.{starts_with}
use the_dudes_daemon.Base.{
  ℕ, ◌+◌, Bool, true, false, not, ◌||◌, Option, none, some, List, [], ◌∷◌, length, ltb, leb,
  if◌then◌else◌, comparable_nat, map, filter, contains, add, lookup, insert,
}
use the_dudes_daemon.SuitePark.Tree.{ProcRow, Suite}

pub record Sample : Type 0 where
  pub cpu : List (ℕ × ℕ)
  pub runnable : List ℕ

sample_from : Sample → List ProcRow → Sample
sample_from s [] = s
sample_from s (r ∷ rows) =
    sample_from
      (record {
        cpu = insert r.pid r.cpu_ms s.cpu;
        runnable = if starts_with r.stat "R" then add r.pid s.runnable else s.runnable;
      })
      rows

unfoldable pub sample_of : List ProcRow → Sample
unfolding sample_from
sample_of rows = sample_from (record { cpu = []; runnable = [] }) rows

pub data SuiteState : Type 0 where
  viva pendurada indeterminada : SuiteState

pub data Motive : Type 0 where
  young no_baseline grown : Motive
  many_runnable : ℕ → Motive
  runnable_at_both_ends : List ℕ → Motive
  flat : ℕ → Motive

-- `cpuDeltaMs` is `after - before`.
pub record CpuDelta : Type 0 where
  pub after : ℕ
  pub before : ℕ

pub record Assessment : Type 0 where
  pub suite : Suite
  pub state : SuiteState
  pub motivo : Motive
  pub cpu_delta_ms : Option CpuDelta
  pub window_ms : ℕ

pub record AssessOpts : Type 0 where
  pub min_age_ms : ℕ
  pub max_cpu_delta_ms : ℕ
  pub window_ms : ℕ

abbrev pub runnable_min : ℕ
runnable_min = 2

abbrev pub or_zero : Option ℕ → ℕ
or_zero none = 0
or_zero (some n) = n

pub add_delta : Option ℕ → ℕ → CpuDelta → CpuDelta
add_delta none now d = d
add_delta (some before) now d = record { after = now + d.after; before = before + d.before }

pub delta_of : List (ℕ × ℕ) → List (ℕ × ℕ) → List ℕ → CpuDelta
unfolding add_delta
delta_of now base [] = record { after = 0; before = 0 }
delta_of now base (pid ∷ members) =
    add_delta (lookup pid base) (or_zero (lookup pid now)) (delta_of now base members)

-- `delta < opts.maxCpuDeltaMs`
abbrev pub is_flat : CpuDelta → ℕ → Bool
is_flat d max_cpu_delta_ms = ltb d.after (max_cpu_delta_ms + d.before)

abbrev pub some_pid : List ℕ → Bool
some_pid [] = false
some_pid (p ∷ pids) = true

pub persistent : Suite → Sample → List ℕ
persistent s base = filter (λ pid. contains pid base.runnable) s.runnable_pids

flat_motive : Suite → Sample → Motive
unfolding persistent
flat_motive s base =
    if leb runnable_min (length s.runnable_pids)
    then many_runnable (length s.runnable_pids)
    else runnable_at_both_ends (persistent s base)

abbrev judged : Suite → ℕ → SuiteState → Motive → Option CpuDelta → Assessment
judged s window_ms state motivo delta = record {
  suite = s;
  state = state;
  motivo = motivo;
  cpu_delta_ms = delta;
  window_ms = window_ms;
}

assess_flat : Suite → Sample → AssessOpts → CpuDelta → Assessment
unfolding flat_motive
assess_flat s base opts d =
    if leb runnable_min (length s.runnable_pids) || some_pid (persistent s base)
    then judged s opts.window_ms viva (flat_motive s base) (some d)
    else judged s opts.window_ms pendurada (flat (length s.runnable_pids)) (some d)

assess_measured : Suite → Sample → AssessOpts → CpuDelta → Assessment
unfolding assess_flat
assess_measured s base opts d =
    if is_flat d opts.max_cpu_delta_ms
    then assess_flat s base opts d
    else judged s opts.window_ms viva grown (some d)

abbrev pub has : ℕ → List (ℕ × ℕ) → Bool
has pid m = elim (lookup pid m) [ none ↦ false | some cpu ↦ true ]

assess_against : Suite → Option Sample → AssessOpts → Assessment
unfolding assess_measured delta_of
assess_against s none opts = judged s opts.window_ms indeterminada no_baseline none
assess_against s (some base) opts =
    if has s.root_pid base.cpu
    then assess_measured s base opts (delta_of s.cpu_by_pid base.cpu s.members)
    else judged s opts.window_ms indeterminada no_baseline none

pub assess : Suite → Option Sample → AssessOpts → Assessment
unfolding assess_against
assess s baseline opts =
    if ltb s.age_ms opts.min_age_ms
    then judged s opts.window_ms viva young none
    else assess_against s baseline opts

pub assess_suites : List Suite → Option Sample → AssessOpts → List Assessment
unfolding assess
assess_suites suites baseline opts = map (λ s. assess s baseline opts) suites

pub is_hung : Assessment → Bool
is_hung a = elim a.state [ pendurada ↦ true | _ ↦ false ]
