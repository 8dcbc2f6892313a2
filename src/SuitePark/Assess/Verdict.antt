-- ===== src/SuitePark/Assess/Verdict.antt =====
-- When a suite is said to hang.
use the_dudes_daemon.Base.{
  ℕ, ◌+◌, ◌≤◌, ◌<◌, ◌≡◌, ◌↔◌, inl, inr, refl, Bool, true, false, Option, none, some, List, [], ◌∷◌,
  arith, length, All, contains, comparable_nat, filter, lookup, Bool-cases, map, subst, sym, ap,
  if◌then◌else◌,
}
use the_dudes_daemon.SuitePark.Tree.{Suite}
use the_dudes_daemon.SuitePark.Assess.{
  Sample, CpuDelta, AssessOpts, pendurada, delta_of, add_delta, or_zero, persistent, some_pid,
  assess_flat, assess, Assessment, is_hung, assess_suites,
}

-- The CPU time that a sample has for a process, and for several.
abbrev ms_of : Option ℕ → ℕ
ms_of none = 0
ms_of (some ms) = ms

abbrev pub time_of : List (ℕ × ℕ) → ℕ → ℕ
time_of cpu pid = ms_of (lookup pid cpu)

abbrev pub time_of_all : List (ℕ × ℕ) → List ℕ → ℕ
time_of_all cpu [] = 0
time_of_all cpu (pid ∷ pids) = time_of cpu pid + time_of_all cpu pids

abbrev is_there : Option ℕ → Bool
is_there none = false
is_there (some ms) = true

-- Whether a sample has the process, and the members that the earlier sample has.
abbrev pub sampled : List (ℕ × ℕ) → ℕ → Bool
sampled cpu pid = is_there (lookup pid cpu)

abbrev pub known : Suite → Sample → List ℕ
known s base = filter (sampled base.cpu) s.members

-- The criterion of the code: old enough, the root known to the earlier sample, less CPU time gained
-- than allowed by the members that this sample fewer than two runnable processes, and none that
-- was runnable in both samples. What a member uses that came after that sample does not count.
abbrev pub Hangs : Suite → Option Sample → AssessOpts → Type 0
Hangs s none opts = ⊥
Hangs s (some base) opts =
    (opts.min_age_ms ≤ s.age_ms)
    × (sampled base.cpu s.root_pid ≡ true)
    × (time_of_all s.cpu_by_pid (known s base)
        < opts.max_cpu_delta_ms + time_of_all base.cpu (known s base))
    × (length s.runnable_pids < 2)
    × All (λ pid. contains pid base.runnable ≡ false) s.runnable_pids

or_zero_same : (o : Option ℕ) → or_zero o ≡ ms_of o
or_zero_same none = refl
or_zero_same (some ms) = refl

add_both : {a b c d : ℕ} → a ≡ b → c ≡ d → a + c ≡ b + d
add_both h k = omega (arith, h, k)

add_delta-time :
    (now base : List (ℕ × ℕ)) (pid : ℕ) (both : List ℕ) (d : CpuDelta) (o : Option ℕ)
    → lookup pid base ≡ o
    → d.after ≡ time_of_all now both
    → d.before ≡ time_of_all base both
    → let both' = if is_there o then pid ∷ both else both in
      let d' = add_delta o (or_zero (lookup pid now)) d in
      (d'.after ≡ time_of_all now both') × (d'.before ≡ time_of_all base both')
unfolding add_delta
add_delta-time now base pid both d none e after before = (after, before)
add_delta-time now base pid both d (some ms) e after before =
    (add_both (or_zero_same (lookup pid now)) after, add_both (ap ms_of (sym e)) before)

delta_of-time :
    (now base : List (ℕ × ℕ)) (members : List ℕ)
    → let both = filter (sampled base) members in
      ((delta_of now base members).after ≡ time_of_all now both)
      × ((delta_of now base members).before ≡ time_of_all base both)
unfolding delta_of
delta_of-time now base [] = (refl, refl)
delta_of-time now base (pid ∷ members) =
    let (after, before) = delta_of-time now base members in
    add_delta-time now base pid (filter (sampled base) members) (delta_of now base members)
      (lookup pid base) refl after before

some_pid-filter :
    (p : ℕ → Bool) (pids : List ℕ)
    → (some_pid (filter p pids) ≡ false) ↔ All (λ pid. p pid ≡ false) pids
some_pid-filter p [] = (λ h. tt, λ h. refl)
some_pid-filter p (x ∷ pids) =
    let (f, g) = some_pid-filter p pids in
    elim (Bool-cases (p x)) [
      | inl e ↦ (λ h. ground arith, λ h. ground (arith, h.0))
      | inr e ↦ (λ h. (e, f (ground arith)), λ h. ground (arith, g h.1))
    ]

-- A suite is said to hang exactly when it meets the criterion: it is old enough, there is an earlier
-- sample that has its root, the members that this sample has gained less CPU time than allowed, and
-- there is no repeated sign of being runnable.
pub assess-Hangs :
    (s : Suite) (baseline : Option Sample) (opts : AssessOpts)
    → ((assess s baseline opts).state ≡ pendurada) ↔ Hangs s baseline opts
unfolding assess assess_flat persistent
assess-Hangs s none opts = (λ h. ground arith, λ h. absurd h)
assess-Hangs s (some base) opts =
    let (f, g) = some_pid-filter (λ pid. contains pid base.runnable) s.runnable_pids in
    let (after, before) = delta_of-time s.cpu_by_pid base.cpu s.members in
    subst
      (λ (t : ℕ × ℕ). ((assess s (some base) opts).state ≡ pendurada) ↔ (
        (opts.min_age_ms ≤ s.age_ms)
        × (sampled base.cpu s.root_pid ≡ true)
        × (t.0 < opts.max_cpu_delta_ms + t.1)
        × (length s.runnable_pids < 2)
        × All (λ pid. contains pid base.runnable ≡ false) s.runnable_pids))
      {x = (
        (delta_of s.cpu_by_pid base.cpu s.members).after,
        (delta_of s.cpu_by_pid base.cpu s.members).before,
      )}
      (cc (after, before))
      (
        λ h. (ground arith, ground arith, ground arith, ground arith, f (ground arith)),
        λ (old, found, level, few, apart). ground (arith, g apart),
      )

assess-suite :
    (s : Suite) (baseline : Option Sample) (opts : AssessOpts) → (assess s baseline opts).suite ≡ s
unfolding assess assess_flat
assess-suite s none opts = ground arith
assess-suite s (some base) opts = ground arith

is_hung-pendurada : (a : Assessment) → is_hung a ≡ true → a.state ≡ pendurada
unfolding is_hung
is_hung-pendurada a h = ground arith

pub assess_suites-Hangs :
    (suites : List Suite) (baseline : Option Sample) (opts : AssessOpts)
    → All
        (λ s. Hangs s baseline opts)
        (map (λ (a : Assessment). a.suite) (filter is_hung (assess_suites suites baseline opts)))
unfolding assess_suites
assess_suites-Hangs [] baseline opts = tt
assess_suites-Hangs (s ∷ suites) baseline opts =
    let later = assess_suites-Hangs suites baseline opts in
    elim (Bool-cases (is_hung (assess s baseline opts))) [
      | inl e ↦ rw e (
        subst (λ x. Hangs x baseline opts) (sym (assess-suite s baseline opts))
            ((assess-Hangs s baseline opts).0 (is_hung-pendurada (assess s baseline opts) e)),
        later,
      )
      | inr e ↦ rw e later
    ]
