-- ===== src/Latency/Once.antt =====
-- A turn ends once, and its marks are set once.
use the_dudes_daemon.Base.{
  ℕ, ◌≡◌, refl, ap, sym, subst, ◌∙◌, Bool, true, false, Option, List, [], ◌∷◌, arith, length,
  length-append, inl, inr, Bool-cases,
}
use the_dudes_daemon.Latency.{
  Timing, TurnEndReason, KilledBy, RecoverKind, gate_start, gate_end, start, boot_start, boot_ready,
  set_boot_ms, set_lifetime_limit, semantic, accept, report, finish, Call, gates, gated, starts,
  boots, booted, accepts, boots_in, limits, speaks, ends, step, run, create,
}

-- No call changes a turn that has ended.
pub step_ended : (t : Timing) (c : ℕ × Call) → t.ended ≡ true → step t c ≡ t
unfolding step gate_start gate_end start boot_start boot_ready set_boot_ms set_lifetime_limit
    semantic accept finish
step_ended t (now, gates) h = rw h refl
step_ended t (now, gated) h = rw h refl
step_ended t (now, starts) h = rw h refl
step_ended t (now, boots) h = rw h refl
step_ended t (now, booted) h = rw h refl
step_ended t (now, accepts) h = rw h refl
step_ended t (now, boots_in ms) h = rw h refl
step_ended t (now, limits limit) h = rw h refl
step_ended t (now, speaks kind) h = rw h refl
step_ended t (now, ends reason killed_by kind) h = rw h refl

run_ended : (t : Timing) (cs : List (ℕ × Call)) → t.ended ≡ true → run t cs ≡ t
unfolding run
run_ended t [] h = refl
run_ended t (c ∷ cs) h = ap (λ u. run u cs) (step_ended t c h) ∙ run_ended t cs h

abbrev pub endings : Bool → ℕ
endings true = 1
endings false = 0

abbrev pub IsCounted : Timing → Type 0
IsCounted t = length t.emitted ≡ endings t.ended

pub finish-IsCounted :
    (reason : TurnEndReason) (killed_by : Option KilledBy) (kind : Option RecoverKind) (now : ℕ)
    (t : Timing)
    → IsCounted t
    → IsCounted (finish reason killed_by kind now t)
      × ((finish reason killed_by kind now t).ended ≡ true)
unfolding finish step
finish-IsCounted reason killed_by kind now t h = elim (Bool-cases t.ended) [
  | inl e ↦
      subst (λ u. IsCounted u × (u.ended ≡ true))
        (sym (step_ended t (now, ends reason killed_by kind) e)) (h, e)
  | inr e ↦ rw e (
    omega
        (arith, h, ap endings e, length-append t.emitted (report reason killed_by kind now t ∷ [])),
    refl,
  )
]

pub step-IsCounted : (t : Timing) (c : ℕ × Call) → IsCounted t → IsCounted (step t c)
unfolding step gate_start gate_end start boot_start boot_ready set_boot_ms set_lifetime_limit
    semantic accept
step-IsCounted t (now, gates) h = ground arith
step-IsCounted t (now, gated) h = ground arith
step-IsCounted t (now, starts) h = ground arith
step-IsCounted t (now, boots) h = ground arith
step-IsCounted t (now, booted) h = ground arith
step-IsCounted t (now, accepts) h = ground arith
step-IsCounted t (now, boots_in ms) h = ground arith
step-IsCounted t (now, limits limit) h = ground arith
step-IsCounted t (now, speaks kind) h = ground arith
step-IsCounted t (now, ends reason killed_by kind) h =
    (finish-IsCounted reason killed_by kind now t h).0

run-IsCounted : (t : Timing) (cs : List (ℕ × Call)) → IsCounted t → IsCounted (run t cs)
unfolding run
run-IsCounted t [] h = h
run-IsCounted t (c ∷ cs) h = run-IsCounted (step t c) cs (step-IsCounted t c h)

-- A turn is reported once: whatever calls come before `finish`, one report is out after it, and no
-- call that comes later changes anything, another `finish` with another reason included.
pub run-finish :
    (attempt born : ℕ) (before after : List (ℕ × Call)) (reason : TurnEndReason)
    (killed_by : Option KilledBy) (kind : Option RecoverKind) (now : ℕ)
    → let t = finish reason killed_by kind now (run (create attempt born) before) in
      (length t.emitted ≡ 1) × (run t after ≡ t)
unfolding create
run-finish attempt born before after reason killed_by kind now =
    let t = run (create attempt born) before in
    let (counted, ended) =
      finish-IsCounted reason killed_by kind now t
        (run-IsCounted (create attempt born) before refl) in
    (counted ∙ ap endings ended, run_ended (finish reason killed_by kind now t) after ended)
