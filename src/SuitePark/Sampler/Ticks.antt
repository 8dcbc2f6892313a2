-- ===== src/SuitePark/Sampler/Ticks.antt =====
-- What the sampler keeps, when it kills, and that its ticks end.
use the_dudes_daemon.Base.{
  ◌∙◌, ℕ, ◌≤◌, ◌≡◌, ◌⊎◌, inl, inr, refl, ap, sym, subst, Bool, true, false, Option, none, some,
  List, [], ◌∷◌, ◌++◌, arith, length, length-keep_last,
}
use the_dudes_daemon.SuitePark.Tree.{ProcRow, Suite, collect_suites}
use the_dudes_daemon.SuitePark.Assess.{sample_of, Assessment}
use the_dudes_daemon.SuitePark.Sampler.{
  SuiteParkOpts, Entry, Awaits, idle, sampling, reaping, Sampler, Event, ticked, ps_answered,
  ps_failed, reaped, stop, initial, after_verdict, record_sample, with_suites, on_rows, resume,
  tick, step, run,
}

abbrev waits : Awaits → Bool
waits idle = false
waits sampling = true
waits reaping = true

-- A tick is in course exactly when the sampler waits for something, and the history has at most the
-- entries allowed.
pub record IsConsistent (o : SuiteParkOpts) (s : Sampler) : Type 0 where
  pub waiting : s.in_course ≡ waits s.awaits
  pub bounded : length s.history ≤ o.history_max

module _ (fuel : ℕ) (o : SuiteParkOpts) (own_pid : ℕ) where
  after_verdict-IsConsistent :
      (b : Bool) (s : Sampler) (assessments : List Assessment) (hung : List Suite)
      → s.in_course ≡ true
      → length s.history ≤ o.history_max
      → IsConsistent o (after_verdict b s assessments hung).0
  unfolding after_verdict
  after_verdict-IsConsistent true s assessments hung c h = ground arith
  after_verdict-IsConsistent false s assessments [] c h = ground arith
  after_verdict-IsConsistent false s assessments (x ∷ hung) c h = ground arith

  length-record_sample :
      (now : ℕ) (rows : List ProcRow) (history : List Entry)
      → length (record_sample o now rows history) ≤ o.history_max
  unfolding record_sample
  length-record_sample now rows history = omega (
    arith,
    length-keep_last {0} {A = Entry} o.history_max
        (history ++ record { at = now; sample = sample_of rows } ∷ []),
  )

  on_rows-IsConsistent :
      (now : ℕ) (rows : List ProcRow) (s : Sampler) (stopped : Bool)
      → IsConsistent o s
      → s.awaits ≡ sampling
      → IsConsistent o (on_rows fuel o own_pid now rows s stopped).0
  unfolding on_rows
  on_rows-IsConsistent now rows s true v e = ground (arith, v.bounded)
  on_rows-IsConsistent now rows s false v e = answered (collect_suites fuel rows own_pid)
    where
      answered : (found : Option (List Suite)) → IsConsistent o (with_suites o now rows s found).0
      answered none = v
      answered (some suites) =
          after_verdict-IsConsistent s.stopped _ _ _ (v.waiting ∙ ap waits e)
            (length-record_sample now rows s.history)

  resume-IsConsistent :
      (event : Event) (s : Sampler) (awaits : Awaits)
      → s.awaits ≡ awaits
      → IsConsistent o s
      → IsConsistent o (resume fuel o own_pid event s awaits).0
  unfolding resume
  resume-IsConsistent (ps_answered now rows) s sampling e v =
      on_rows-IsConsistent now rows s s.stopped v e
  resume-IsConsistent (ps_answered now rows) s idle e v = v
  resume-IsConsistent (ps_answered now rows) s reaping e v = v
  resume-IsConsistent ps_failed s sampling e v = ground (arith, v.bounded)
  resume-IsConsistent ps_failed s idle e v = v
  resume-IsConsistent ps_failed s reaping e v = v
  resume-IsConsistent reaped s reaping e v = ground (arith, v.bounded)
  resume-IsConsistent reaped s sampling e v = v
  resume-IsConsistent reaped s idle e v = v
  resume-IsConsistent ticked s awaits e v = v
  resume-IsConsistent stop s awaits e v = v

  step-IsConsistent :
      (event : Event) (s : Sampler)
      → IsConsistent o s
      → IsConsistent o (step fuel o own_pid event s).0
  unfolding step tick
  step-IsConsistent ticked s v = ground (arith, v.bounded, v.waiting)
  step-IsConsistent stop s v = ground (arith, v.bounded, v.waiting)
  step-IsConsistent (ps_answered now rows) s v =
      resume-IsConsistent (ps_answered now rows) s s.awaits refl v
  step-IsConsistent ps_failed s v = resume-IsConsistent ps_failed s s.awaits refl v
  step-IsConsistent reaped s v = resume-IsConsistent reaped s s.awaits refl v

  run-IsConsistent :
      (events : List Event) (s : Sampler)
      → IsConsistent o s
      → IsConsistent o (run fuel o own_pid events s).0
  unfolding run
  run-IsConsistent [] s v = v
  run-IsConsistent (event ∷ events) s v = run-IsConsistent events _ (step-IsConsistent event s v)

  -- After any events the sampler is in course exactly when it waits for `ps` or for the reaper, so at most
  -- one tick is, and its history has at most the entries allowed.
  pub run-initial-IsConsistent :
      (events : List Event) → IsConsistent o (run fuel o own_pid events initial).0
  unfolding initial
  run-initial-IsConsistent events = run-IsConsistent events initial (ground arith)

  on_rows_ends :
      (now : ℕ) (rows : List ProcRow) (s : Sampler) (stopped : Bool) (suites : List Suite)
      → s.awaits ≡ sampling
      → collect_suites fuel rows own_pid ≡ some suites
      → let s' = (on_rows fuel o own_pid now rows s stopped).0 in
        ((s'.in_course ≡ false) × (s'.awaits ≡ idle)) ⊎ (s'.awaits ≡ reaping)
  unfolding on_rows
  on_rows_ends now rows s true suites e found = inl (refl, refl)
  on_rows_ends now rows s false suites e found = rw found (verdict s.stopped _ _ _)
    where
      verdict :
          (b : Bool) (t : Sampler) (assessments : List Assessment) (hung : List Suite)
          → let s' = (after_verdict b t assessments hung).0 in
            ((s'.in_course ≡ false) × (s'.awaits ≡ idle)) ⊎ (s'.awaits ≡ reaping)
      verdict true t assessments hung = inl (refl, refl)
      verdict false t assessments [] = inl (refl, refl)
      verdict false t assessments (x ∷ hung) = inr refl

  -- A tick that waits for `ps` is over once `ps` has failed, or once it has answered with a table whose
  -- search ends and, where suites are killed, the reaper is through.
  pub step_ends :
      (now : ℕ) (rows : List ProcRow) (s : Sampler) {suites : List Suite}
      → s.awaits ≡ sampling
      → collect_suites fuel rows own_pid ≡ some suites
      → ((step fuel o own_pid ps_failed s).0.in_course ≡ false)
        × (let s' = (step fuel o own_pid (ps_answered now rows) s).0 in
            ((s'.in_course ≡ false) × (s'.awaits ≡ idle))
            ⊎ ((s'.awaits ≡ reaping) × ((step fuel o own_pid reaped s').0.in_course ≡ false)))
  unfolding step
  step_ends now rows s {suites} e found = (
    subst (λ a. (resume fuel o own_pid ps_failed s a).0.in_course ≡ false) (sym e) refl,
    subst Ends (sym e) (elim (on_rows_ends now rows s s.stopped suites e found) [
      | inl h ↦ inl h
      | inr h ↦ inr (
        h,
        subst
            (λ a.
              (resume fuel o own_pid reaped (on_rows fuel o own_pid now rows s s.stopped).0
                a).0.in_course
              ≡ false)
            (sym h) refl,
      )
    ]),
  )
    where
      Ends : Awaits → Type 0
      Ends a =
          let s' = (resume fuel o own_pid (ps_answered now rows) s a).0 in
          ((s'.in_course ≡ false) × (s'.awaits ≡ idle))
          ⊎ ((s'.awaits ≡ reaping) × ((step fuel o own_pid reaped s').0.in_course ≡ false))
