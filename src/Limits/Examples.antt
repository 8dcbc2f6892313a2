-- ===== src/Limits/Examples.antt =====
-- Tests and witnesses of the ceilings.
use the_dudes_daemon.Base.{◌*◌, ◌≡◌, refl}
use the_dudes_daemon.Limits.{max_hold_ms}

max_hold_125_minutes : max_hold_ms ≡ 125 * 60000
unfolding max_hold_ms
max_hold_125_minutes = refl
