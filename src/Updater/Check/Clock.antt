-- ===== src/Updater/Check/Clock.antt =====
-- What a check leaves in the state.
use Prim.Native.String.{String}
use the_dudes_daemon.Base.{
  if-holds, ◌≡◌, ◌≢◌, ◌⊎◌, inl, inr, refl, Bool, true, false, Option, none, some, List, [], arith,
  ◌∙◌, Option-cases,
}
use the_dudes_daemon.Updater.{Config, UpdateState, failed, plan_restart_when_idle, request_reexec}
use the_dudes_daemon.Updater.Bundle.{Platform}
use the_dudes_daemon.Updater.Check.{
  DiskOp, Request, Checked, names, both, download, rename_all, since, swapped, planned, finish,
  runs_already, was_applied, published_hash, proceed_if, check_and_apply_update,
}

plan_restart_when_idle_lem :
    (c : Config) (idle : Bool) (s : UpdateState)
    → ((plan_restart_when_idle c idle s).0.1 ≢ failed)
      × ((plan_restart_when_idle c idle s).0.0.update_pending_since ≡ s.update_pending_since)
unfolding plan_restart_when_idle request_reexec
plan_restart_when_idle_lem c idle s = (λ h. ground arith, ground arith)

module _ {B S : Type 0} (p : Platform B S) (c : Config) (r : Request) where
  -- A failure changes nothing, and the clock of an update that waits is kept.
  abbrev pub Keeps : UpdateState → Checked B → Type 0
  Keeps s out =
      ((out.result ≢ failed) ⊎ (out.state ≡ s))
      × ((s.update_pending_since ≡ none)
          ⊎ (out.state.update_pending_since ≡ s.update_pending_since))

  planned-Keeps :
      (s t : UpdateState) (ops : List (DiskOp B))
      → (s.update_pending_since ≡ none) ⊎ (t.update_pending_since ≡ s.update_pending_since)
      → Keeps s (planned p c r ops (plan_restart_when_idle c r.idle t))
  unfolding planned
  planned-Keeps s t ops k =
      let (ok, kept) = plan_restart_when_idle_lem c r.idle t in
      (inl ok, elim k [ inl n ↦ inl n | inr e ↦ inr (kept ∙ e) ])

  swapped_since :
      (hash : String) (s : UpdateState)
      → (s.update_pending_since ≡ none)
        ⊎ ((swapped p c r hash s).update_pending_since ≡ s.update_pending_since)
  unfolding swapped since
  swapped_since hash s = elim (Option-cases s.update_pending_since) [
    | inl e ↦ inl e
    | inr (t, e) ↦ inr (ground (arith, e))
  ]

  finish-Keeps :
      (s : UpdateState) (hash : String) (d : List (DiskOp B) × Bool)
      → Keeps s (finish p c r s hash d)
  unfolding finish
  finish-Keeps s hash (ops, false) = (inr refl, inr refl)
  finish-Keeps s hash (ops, true) =
      planned-Keeps s (swapped p c r hash s) ops (swapped_since hash s)

  -- A check that fails leaves the state as it was; and whatever a check finds, also a newer release, an
  -- update that already waits keeps the time at which its wait began.
  pub check_and_apply_update-Keeps : (s : UpdateState) → Keeps s (check_and_apply_update p c r s)
  unfolding check_and_apply_update
  check_and_apply_update-Keeps s = published (published_hash p c r)
    where
      published : (hash : Option String) → Keeps s (proceed_if p c r s hash)
      published none = (inr refl, inr refl)
      published (some hash) =
          if-holds (Keeps s) (runs_already p c r hash r.running_hash) _ _
            (λ e. (inr refl, inr refl))
            (if-holds (Keeps s) (was_applied p c r hash s) _ _
              (λ e. planned-Keeps s s [] (inr refl))
              (finish-Keeps s hash (both (download p c r names) (rename_all p c r names))))
