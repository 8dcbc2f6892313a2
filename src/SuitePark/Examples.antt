-- ===== src/SuitePark/Examples.antt =====
-- Tests and witnesses of the suite park: an observer, and a test run with a worker and a pipeline.
use Prim.Native.String.{String}
use the_dudes_daemon.Base.{
  ℕ, zero, suc, ◌≡◌, ◌↔◌, refl, true, false, none, some, List, [], ◌∷◌, arith, map, All, any,
  comparable_nat, ltb, if◌then◌else◌, ◌==◌,
}
use the_dudes_daemon.SuitePark.Command.{is_test_root}
use the_dudes_daemon.SuitePark.Tree.{ProcRow, Suite, by_pid, kids, children_of, collect_suites}
use the_dudes_daemon.SuitePark.Assess.{sample_of, pendurada, assess}
use the_dudes_daemon.SuitePark.Assess.Verdict.{Hangs, assess-Hangs}
use the_dudes_daemon.SuitePark.Reap.{group, process, ReapDeps, Host, reap_suites}
use the_dudes_daemon.SuitePark.Reap.Signals.{may, reap_suites-may}
use the_dudes_daemon.SuitePark.Ps.{PsSpawnResult}
use the_dudes_daemon.SuitePark.Sampler.{
  sampling, Sampler, ps_answered, assess_opts, suite_park_defaults, step,
}
use the_dudes_daemon.SuitePark.Sampler.Kills.{Kills, Rightly, step-Kills}

opened : Unit {0}
unfolding by_pid kids children_of is_test_root collect_suites
opened = tt

abbrev row : ℕ → ℕ → ℕ → ℕ → String → ProcRow
row pid ppid pgid cpu_ms command = record {
  pid = pid;
  ppid = ppid;
  pgid = pgid;
  stat = "S";
  elapsed_ms = 900000;
  cpu_ms = cpu_ms;
  command = command;
}

abbrev daemon : ProcRow
daemon = row 10 1 10 5 "node daemon.js"

-- The root 20 with its worker 21, and a `grep` of its group.
abbrev table : List ProcRow
table =
    daemon
    ∷ row 20 10 20 100 "node --import tsx --test"
    ∷ row 21 20 20 50 "node --test-isolation=process"
    ∷ row 22 10 20 1 "grep ok"
    ∷ []

-- Twice the number of the processes below, and one more.
abbrev weight : ℕ → ℕ
weight pid = if pid == 1 then 9 else if pid == 10 then 6 else if pid == 20 then 2 else 1

-- The observer's group is another one, so the run is killed by its group, the pipeline with it.
table_test :
    map
      (λ (s : Suite). s.members)
      (elim (collect_suites 9 table 10) [ none ↦ [] | some suites ↦ suites ])
    ≡ (20 ∷ 21 ∷ 22 ∷ []) ∷ []
unfolding opened
table_test = refl

abbrev found : List Suite
found = elim (collect_suites 9 table 10) [ none ↦ [] | some suites ↦ suites ]

abbrev suite : Suite
suite = record {
  root_pid = 20;
  pgid = 20;
  command = "node --test";
  members = 20 ∷ 21 ∷ [];
  cpu_by_pid = (20, 100) ∷ (21, 50) ∷ [];
  runnable_pids = [];
  age_ms = 900000;
  cpu_ms = 150;
  kill_group = true;
}

assess-Hangs_example :
    ((assess suite (some (sample_of table)) (assess_opts suite_park_defaults)).state ≡ pendurada)
    ↔ Hangs suite (some (sample_of table)) (assess_opts suite_park_defaults)
assess-Hangs_example = assess-Hangs suite (some (sample_of table)) (assess_opts suite_park_defaults)

-- A worker that came after the first sample does not count, however much CPU time it used.
abbrev with_new_worker : Suite
with_new_worker = record suite {
  members = 20 ∷ 21 ∷ 23 ∷ [];
  cpu_by_pid = (20, 100) ∷ (21, 50) ∷ (23, 60000) ∷ [];
}

new_worker_test :
    (assess with_new_worker (some (sample_of table)) (assess_opts suite_park_defaults)).state
    ≡ pendurada
unfolding sample_of assess_opts
new_worker_test =
    (assess-Hangs with_new_worker (some (sample_of table)) (assess_opts suite_park_defaults)).1
      (omega arith, refl, omega arith, omega arith, tt)

-- A system that refuses signals to groups, and counts what it is asked.
abbrev refuses_groups : ReapDeps ℕ
refuses_groups = record {
  kill = λ target signal n. (suc n, elim target [ group g ↦ false | process p ↦ true ]);
  alive = λ pid n. (n, ltb n 4);
  sleep = λ ms n. n;
}

abbrev host : Host refuses_groups
host = record { world = 0; calls = []; sinais = [] }

reap_suites-may_example :
    All
      (λ c. any (may c) (suite ∷ []) ≡ true)
      (reap_suites refuses_groups (suite ∷ []) 2000 0).calls
reap_suites-may_example = reap_suites-may refuses_groups (suite ∷ []) 2000 0

-- The first attempt times out, the second is read.
abbrev answer : ℕ → PsSpawnResult
answer zero = record {
  status = none;
  stdout = none;
  error = some (record { code = some "ETIMEDOUT" });
}
answer (suc i) = record { status = some 0; stdout = some "10 1 10"; error = none }

abbrev parse : String → List ProcRow
parse text = table

-- A tick three minutes after the first sample.
abbrev waiting : Sampler
waiting = record {
  history = record { at = 0; sample = sample_of table } ∷ [];
  in_course = true;
  stopped = false;
  awaits = sampling;
}

step-Kills_example :
    Kills
      (Rightly 9 suite_park_defaults 10 180000 waiting)
      (step 9 suite_park_defaults 10 (ps_answered 180000 table) waiting).1
step-Kills_example = step-Kills 9 suite_park_defaults 10 180000 table waiting
