-- ===== src/SuitePark/Sampler/Kills.antt =====
-- When the sampler calls the reaper.
use the_dudes_daemon.Base.{
  ℕ, ◌+◌, ◌≤◌, ◌<◌, ◌≡◌, ◌⊎◌, inl, inr, refl, ap, subst, Bool, true, false, Option, none, some,
  List, [], ◌∷◌, ◌++◌, arith, leb, if◌then◌else◌, All, Bool-cases, Option-cases,
}
use the_dudes_daemon.SuitePark.Tree.{ProcRow, Suite, collect_suites}
use the_dudes_daemon.SuitePark.Assess.{Sample, Assessment}
use the_dudes_daemon.SuitePark.Assess.Verdict.{Hangs, assess_suites-Hangs}
use the_dudes_daemon.SuitePark.Sampler.{
  SuiteParkOpts, Entry, Awaits, idle, sampling, reaping, Sampler, Event, ticked, ps_answered,
  ps_failed, reaped, stop, Outcome, kills, baseline_of, after_verdict, assess_opts, with_suites,
  on_rows, resume, unless_in_course, tick, step, run,
}

-- The entry that a sample is compared with: at least `window` old, and all after it are younger.
abbrev pub IsLatest : ℕ → ℕ → List Entry → Option Sample → Type 0
IsLatest now window history none = All (λ (e : Entry). now < e.at + window) history
IsLatest now window history (some sample) =
    (older : List Entry) × (e : Entry) × (later : List Entry) × (history ≡ older ++ e ∷ later)
    × (e.sample ≡ sample)
    × (e.at + window ≤ now)
    × All (λ (x : Entry). now < x.at + window) later

-- The sample compared with is that of the last entry of the history that is at least the window old,
-- and there is none exactly where every entry is younger.
pub baseline_of-IsLatest :
    (now window : ℕ) (history : List Entry)
    → IsLatest now window history (baseline_of now window history)
unfolding baseline_of
baseline_of-IsLatest now window [] = tt
baseline_of-IsLatest now window (e ∷ later) = elim (Option-cases (baseline_of now window later)) [
  | inl h ↦
      rw h (first (subst (IsLatest now window later) h (baseline_of-IsLatest now window later)))
  | inr (s, h) ↦
      rw h (further s (subst (IsLatest now window later) h (baseline_of-IsLatest now window later)))
]
  where
    first :
        All (λ (x : Entry). now < x.at + window) later
        → IsLatest now window (e ∷ later) (if leb (e.at + window) now then some e.sample else none)
    first young = elim (Bool-cases (leb (e.at + window) now)) [
      | inl k ↦ rw k ([], e, later, refl, refl, ground arith, young)
      | inr k ↦ rw k (ground arith, young)
    ]

    further :
        (s : Sample) → IsLatest now window later (some s) → IsLatest now window (e ∷ later) (some s)
    further s (older, x, l, same, taken, old, young) =
        (e ∷ older, x, l, ap (λ (h : List Entry). e ∷ h) same, taken, old, young)

-- The outcome is no call of the reaper.
abbrev pub Spares : Outcome → Type 0
Spares (kills suites assessments) = ⊥
Spares outcome = Unit

-- What holds of the suites where the outcome is a call of the reaper.
abbrev pub Kills : (List Suite → Type 0) → Outcome → Type 0
Kills P (kills suites assessments) = P suites
Kills P outcome = Unit

Kills-after_verdict :
    (P : List Suite → Type 0) (b : Bool) (s : Sampler) (assessments : List Assessment)
    (hung : List Suite)
    → (b ≡ false → (hung ≡ []) ⊎ P hung)
    → Kills P (after_verdict b s assessments hung).1
unfolding after_verdict
Kills-after_verdict P true s assessments hung h = tt
Kills-after_verdict P false s assessments [] h = tt
Kills-after_verdict P false s assessments (x ∷ hung) h = elim (h refl) [ inl e ↦ cc | inr p ↦ p ]

module _ (fuel : ℕ) (o : SuiteParkOpts) (own_pid : ℕ) where
  abbrev pub Rightly : ℕ → Sampler → List Suite → Type 0
  Rightly now s hung =
      (s.stopped ≡ false)
      × (s.awaits ≡ sampling)
      × (earlier : Sample) × IsLatest now o.flat_window_ms s.history (some earlier)
      × All (λ x. Hangs x (some earlier) (assess_opts o)) hung

  -- Where there is no earlier sample, no suite hangs.
  rightly :
      (now : ℕ) (s : Sampler) (hung : List Suite) (found : Option Sample)
      → IsLatest now o.flat_window_ms s.history found
      → All (λ x. Hangs x found (assess_opts o)) hung
      → s.stopped ≡ false
      → s.awaits ≡ sampling
      → (hung ≡ []) ⊎ Rightly now s hung
  rightly now s hung (some earlier) l h r e = inr (r, e, earlier, l, h)
  rightly now s [] none l h r e = inl refl
  rightly now s (x ∷ hung) none l h r e = absurd h.0

  with_suites-Kills :
      (now : ℕ) (rows : List ProcRow) (s : Sampler) (found : Option (List Suite))
      → s.awaits ≡ sampling
      → Kills (Rightly now s) (with_suites o now rows s found).1
  unfolding with_suites
  with_suites-Kills now rows s none e = tt
  with_suites-Kills now rows s (some suites) e =
      Kills-after_verdict (Rightly now s) s.stopped _ _ _ (λ running.
        rightly now s _ (baseline_of now o.flat_window_ms s.history)
          (baseline_of-IsLatest now o.flat_window_ms s.history) (assess_suites-Hangs suites _ _)
          running e)

  on_rows-Kills :
      (now : ℕ) (rows : List ProcRow) (s : Sampler) (stopped : Bool)
      → s.awaits ≡ sampling
      → Kills (Rightly now s) (on_rows fuel o own_pid now rows s stopped).1
  unfolding on_rows
  on_rows-Kills now rows s true e = tt
  on_rows-Kills now rows s false e =
      with_suites-Kills now rows s (collect_suites fuel rows own_pid) e

  resume-Kills :
      (now : ℕ) (rows : List ProcRow) (s : Sampler) (awaits : Awaits)
      → s.awaits ≡ awaits
      → Kills (Rightly now s) (resume fuel o own_pid (ps_answered now rows) s awaits).1
  unfolding resume
  resume-Kills now rows s idle e = tt
  resume-Kills now rows s sampling e = on_rows-Kills now rows s s.stopped e
  resume-Kills now rows s reaping e = tt

  -- Where the answer of `ps` makes a step call the reaper, the sampler was not stopped and waited for
  -- `ps`, its history has an entry that is at least the window old, and each suite given to the reaper
  -- meets the code's criterion for one that hangs against the sample of the last such entry.
  pub step-Kills :
      (now : ℕ) (rows : List ProcRow) (s : Sampler)
      → Kills (Rightly now s) (step fuel o own_pid (ps_answered now rows) s).1
  unfolding step
  step-Kills now rows s = resume-Kills now rows s s.awaits refl

  resume-Spares :
      (event : Event) (s : Sampler) (awaits : Awaits)
      → s.stopped ≡ true
      → Spares (resume fuel o own_pid event s awaits).1
        × ((resume fuel o own_pid event s awaits).0.stopped ≡ true)
  unfolding resume
  resume-Spares (ps_answered now rows) s sampling h = halted s.stopped h
    where
      halted :
          (b : Bool)
          → b ≡ true
          → Spares (on_rows fuel o own_pid now rows s b).1
            × ((on_rows fuel o own_pid now rows s b).0.stopped ≡ true)
      halted true e = (tt, h)
      halted false e = cc
  resume-Spares (ps_answered now rows) s idle h = (tt, h)
  resume-Spares (ps_answered now rows) s reaping h = (tt, h)
  resume-Spares ps_failed s sampling h = (tt, h)
  resume-Spares ps_failed s idle h = (tt, h)
  resume-Spares ps_failed s reaping h = (tt, h)
  resume-Spares reaped s reaping h = (tt, h)
  resume-Spares reaped s idle h = (tt, h)
  resume-Spares reaped s sampling h = (tt, h)
  resume-Spares ticked s awaits h = (tt, h)
  resume-Spares stop s awaits h = (tt, h)

  tick-Spares :
      (b : Bool) (s : Sampler)
      → s.stopped ≡ true
      → Spares (unless_in_course b s).1 × ((unless_in_course b s).0.stopped ≡ true)
  unfolding unless_in_course
  tick-Spares true s h = (tt, h)
  tick-Spares false s h = (tt, h)

  step-Spares :
      (event : Event) (s : Sampler)
      → s.stopped ≡ true
      → Spares (step fuel o own_pid event s).1 × ((step fuel o own_pid event s).0.stopped ≡ true)
  unfolding step tick
  step-Spares ticked s h = tick-Spares s.in_course s h
  step-Spares stop s h = (tt, refl)
  step-Spares (ps_answered now rows) s h = resume-Spares (ps_answered now rows) s s.awaits h
  step-Spares ps_failed s h = resume-Spares ps_failed s s.awaits h
  step-Spares reaped s h = resume-Spares reaped s s.awaits h

  -- Once the sampler is stopped, no event makes it call the reaper.
  pub run-Spares :
      (events : List Event) (s : Sampler)
      → s.stopped ≡ true
      → All Spares (run fuel o own_pid events s).1
  unfolding run
  run-Spares [] s h = tt
  run-Spares (event ∷ events) s h =
      let (spared, still) = step-Spares event s h in (spared, run-Spares events _ still)
