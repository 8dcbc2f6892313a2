-- ===== src/Watchdog/Examples.antt =====
-- Tests and witnesses of the watchdog.
use the_dudes_daemon.Base.{◌+◌, ◌≤◌, ◌<◌, ◌≡◌, ◌↔◌, refl, true, false, some, [], ◌∷◌}
use the_dudes_daemon.Limits.{qwen_turn_lifetime_ms, qwen_turn_lifetime_cap_ms}
use the_dudes_daemon.Watchdog.{
  fine, soft, hard, hang_thresholds, is_grok_family, hang_phase, grok_absolute_timeout_should_kill,
  hard_recover_notify_policy, hang, lifetime, immediate, suppress, summary, TurnActivityClock,
  create_activity_clock, touch_activity_clock, progress, cap, turn_lifetime_exceeded, touches,
}
use the_dudes_daemon.Watchdog.Lifetime.{turn_lifetime_exceeded-touches}

opened : Unit {0}
unfolding is_grok_family hang_thresholds hang_phase grok_absolute_timeout_should_kill
    hard_recover_notify_policy turn_lifetime_exceeded create_activity_clock
opened = tt

phase_tests :
    (hang_phase 299999 (hang_thresholds (some "grok")) true ≡ fine)
    × (hang_phase 200000 (hang_thresholds (some "grok-custom")) false ≡ soft)
    × (hang_phase 1500000 (hang_thresholds (some "claude")) false ≡ hard)
    × (hard_recover_notify_policy 0 3 hang ≡ summary)
    × (hard_recover_notify_policy 0 9 lifetime ≡ suppress)
    × (hard_recover_notify_policy 1 0 lifetime ≡ immediate)
unfolding opened
phase_tests = (refl, refl, refl, refl, refl, refl)

abbrev clock : TurnActivityClock
clock = create_activity_clock 1000

turn_lifetime_exceeded-touches_example :
    let c = touch_activity_clock 3000000 (touches (2000 ∷ 9000 ∷ []) clock) in
    let t = hang_thresholds (some "qwen") in
    ((turn_lifetime_exceeded c t 3601000 ≡ some cap)
      ↔ (clock.turn_started_at + qwen_turn_lifetime_cap_ms ≤ 3601000))
    × ((turn_lifetime_exceeded c t 3601000 ≡ some progress) ↔ (
        (3601000 < clock.turn_started_at + qwen_turn_lifetime_cap_ms)
        × (3000000 + qwen_turn_lifetime_ms ≤ 3601000)))
unfolding hang_thresholds
turn_lifetime_exceeded-touches_example =
    turn_lifetime_exceeded-touches clock (2000 ∷ 9000 ∷ []) 3000000 3601000 qwen_turn_lifetime_ms
      qwen_turn_lifetime_cap_ms (hang_thresholds (some "qwen")) refl refl
