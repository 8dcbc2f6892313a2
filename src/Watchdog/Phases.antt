-- ===== src/Watchdog/Phases.antt =====
-- The phases of silence, for every runner.
use Prim.Native.String.{String}
use the_dudes_daemon.Base.{ℕ, ◌*◌, ◌≤◌, ◌≡◌, ◌≢◌, ◌↔◌, Bool, true, false, Option, arith}
use the_dudes_daemon.Watchdog.{
  HangPhase, fine, soft, hard, HangThresholds, is_grok_family, hang_thresholds, effective_hard_ms,
  effective_soft_ms, hang_phase,
}

abbrev pub rank : HangPhase → ℕ
rank fine = 0
rank soft = 1
rank hard = 2

-- Silence only ever gets worse: a longer one is never in a milder phase.
pub hang_phase_mono :
    (t : HangThresholds) (cold_start : Bool) (idle longer : ℕ)
    → idle ≤ longer
    → rank (hang_phase idle t cold_start) ≤ rank (hang_phase longer t cold_start)
unfolding hang_phase
hang_phase_mono t cold idle longer h = ground arith

-- For every runner the warning never comes after the kill, before and after the first event.
pub soft-le-hard :
    (runner : Option String) (cold_start : Bool)
    → effective_soft_ms (hang_thresholds runner) cold_start
      ≤ effective_hard_ms (hang_thresholds runner) cold_start
unfolding hang_thresholds effective_hard_ms
soft-le-hard runner true = ground arith
soft-le-hard runner false = ground arith

-- Grok is given five minutes of silence before it is killed, in the cold start and after the first
-- event alike, for all that its `hardMs` says two; its cold start is never reported as stalled.
pub grok_phases :
    (runner : Option String) (cold_start : Bool) (idle : ℕ)
    → is_grok_family runner ≡ true
    → ((hang_phase idle (hang_thresholds runner) cold_start ≡ hard) ↔ (5 * 60000 ≤ idle))
      × (hang_phase idle (hang_thresholds runner) true ≢ soft)
unfolding hang_phase hang_thresholds
grok_phases runner true idle h = rw h (ground arith, ground arith)
grok_phases runner false idle h = rw h (ground arith, ground arith)
