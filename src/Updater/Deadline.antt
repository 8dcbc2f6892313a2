-- ===== src/Updater/Deadline.antt =====
-- What the wait for an idle moment comes to: the restart under a launcher, and the request to restart
-- by hand without one.
use the_dudes_daemon.Base.{
  ℕ, ◌+◌, ◌≡◌, refl, Bool, true, false, not, ◌&&◌, ◌||◌, some, List, [], ◌∷◌, arith, leb, any,
}
use the_dudes_daemon.Updater.{
  Config, UpdateState, updated, updated_restart_pending, request_reexec, Tick, stands, again,
  restarts, pending_for, drain_if, restart, busy_tick, tick, Look, go_on, ticks,
}

-- The daemon exits to be started anew.
abbrev pub is_restart : Tick → Bool
is_restart t = elim t [ restarts r ↦ elim r [ updated ↦ true | _ ↦ false ] | _ ↦ false ]

-- Nothing restarts it: that is left to the user.
abbrev pub is_manual : Tick → Bool
is_manual t = elim t [
  | restarts r ↦ elim r [ updated_restart_pending ↦ true | _ ↦ false ]
  | _ ↦ false
]

abbrev stays : Tick → Bool
stays t = elim t [ restarts r ↦ false | again ↦ true | stands ↦ false ]

-- The wait is over when `due` says so, with the end that the launcher allows, and goes on otherwise.
abbrev Ends : Config → Bool → Tick → Type 0
Ends c due t =
    (is_restart t ≡ (c.under_launcher && due)) × (is_manual t ≡ (not c.under_launcher && due))

request_reexec_lem :
    (c : Config) (s : UpdateState)
    → Ends c true (restart (request_reexec c s)).1
      × (stays (restart (request_reexec c s)).1 ≡ false)
      × ((restart (request_reexec c s)).0.update_pending_since ≡ s.update_pending_since)
unfolding restart request_reexec
request_reexec_lem c s = ground arith

drain_due :
    (c : Config) (now since : ℕ) (s : UpdateState)
    → s.update_pending_since ≡ some since
    → c.can_drain ≡ true
    → (drain_if c now s
        && pending_for now s.update_pending_since (c.drain_after_ms + c.drain_force_ms))
      ≡ leb (since + (c.drain_after_ms + c.drain_force_ms)) now
unfolding drain_if
drain_due c now since s p d = ground arith

busy_tick_lem :
    (c : Config) (now : ℕ) (s : UpdateState)
    → let (s', t) = busy_tick c now s in
      let over =
        drain_if c now s
        && pending_for now s.update_pending_since (c.drain_after_ms + c.drain_force_ms) in
      Ends c over t
      × (stays t ≡ not over)
      × (s'.update_pending_since ≡ s.update_pending_since)
      × (stays t ≡ true → s'.drain_forced ≡ s.drain_forced)
unfolding busy_tick
busy_tick_lem c now s = ground arith

-- The tick finds that no turn runs, or that the time of the drain and of its force is over.
abbrev pub due : Config → ℕ → Look → Bool
due c since l = l.idle || leb (since + (c.drain_after_ms + c.drain_force_ms)) l.now

tick_lem :
    (c : Config) (l : Look) (since : ℕ) (s : UpdateState)
    → s.drain_forced ≡ false
    → s.update_pending_since ≡ some since
    → c.can_drain ≡ true
    → let (s', t) = tick c l.idle l.now s in
      Ends c (due c since l) t
      × (stays t ≡ not (due c since l))
      × (s'.update_pending_since ≡ some since)
      × (stays t ≡ true → s'.drain_forced ≡ false)
unfolding tick
tick_lem c l since s f p d = ground (
  arith,
  busy_tick_lem c l.now s,
  drain_due c l.now since s p d,
  request_reexec_lem c (record s { idle_restart_armed = false }),
)

go_on_lem :
    (c : Config) (first rest : UpdateState × Tick) (b r : Bool)
    → Ends c b first.1
    → stays first.1 ≡ not b
    → (stays first.1 ≡ true → Ends c r rest.1)
    → Ends c (b || r) (go_on first rest).1
unfolding go_on
go_on_lem c (s, restarts u) rest true r e k h = e
go_on_lem c (s, restarts u) rest false r e k h = cc
go_on_lem c (s, again) rest true r e k h = cc
go_on_lem c (s, again) rest false r e k h = h refl
go_on_lem c (s, stands) rest true r e k h = e
go_on_lem c (s, stands) rest false r e k h = cc

-- While an update waits since `since`, with a drain that can start and was not forced yet, the wait is
-- over exactly when one of the ticks finds that no turn runs or comes when the time of the drain and
-- of its force is over. Under a launcher it ends in the restart; without one nothing restarts, and
-- it ends in the answer that leaves this to the user.
pub ticks_lem :
    (c : Config) (looks : List Look) (since : ℕ) (s : UpdateState)
    → s.drain_forced ≡ false
    → s.update_pending_since ≡ some since
    → c.can_drain ≡ true
    → let over = any (due c since) looks in
      let end = (ticks c looks s).1 in
      (is_restart end ≡ (c.under_launcher && over))
      × (is_manual end ≡ (not c.under_launcher && over))
unfolding ticks
ticks_lem c [] since s f p d = ground arith
ticks_lem c (l ∷ looks) since s f p d =
    let (over, goes_on, waits, still) = tick_lem c l since s f p d in
    go_on_lem c (tick c l.idle l.now s) _ (due c since l) _ over goes_on
      (λ k. ticks_lem c looks since _ (still k) waits d)
