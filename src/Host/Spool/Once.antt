-- ===== src/Host/Spool/Once.antt =====
-- Whatever happens in a drain, the spool carries each delivery of an agent at most once.
use Prim.Native.String.{String}
use the_dudes_daemon.Base.{ℕ, List, [], ◌∷◌, map, comparable_string}
use the_dudes_daemon.Host.{Message, SpoolItem, RunnerApi, Entry, DrainReason, Host}
use the_dudes_daemon.Host.Hold.{start_drain, hold_in_flight_for_shutdown}
use the_dudes_daemon.Host.Hold.Unique.{
  HoldsOnce, hold_all-HoldsOnce, start_drain-HoldsOnce, shut_down-HoldsOnce,
}
use the_dudes_daemon.Host.Send.{send_message}
use the_dudes_daemon.Host.Send.Once.{send_message-HoldsOnce}
use the_dudes_daemon.Inbound
use the_dudes_daemon.Retained.{listar}
use the_dudes_daemon.Host.Spool.{
  gather, hold_retained, hold_inbound, hold_paused, of_retained, of_buffered, of_paused,
}

module _ {R : Type 0} where
  hold_retained-HoldsOnce :
      (entries : List (String × Entry R)) (h : Host R)
      → HoldsOnce h
      → HoldsOnce (hold_retained entries h)
  unfolding hold_retained
  hold_retained-HoldsOnce [] h once = once
  hold_retained-HoldsOnce ((agent, e) ∷ entries) h once =
      hold_retained-HoldsOnce entries _
        (hold_all-HoldsOnce agent (map of_retained (listar agent h.retained)) h once)

  hold_inbound-HoldsOnce :
      (now : ℕ) (ids : List String) (h : Host R) → HoldsOnce h → HoldsOnce (hold_inbound now ids h)
  unfolding hold_inbound
  hold_inbound-HoldsOnce now [] h once = once
  hold_inbound-HoldsOnce now (agent ∷ ids) h once =
      let (left, waiting) = Inbound.drain agent now h.inbound_buffer in
      let h' : Host R = record h { inbound_buffer = left } in
      hold_inbound-HoldsOnce now ids _ (hold_all-HoldsOnce agent (map of_buffered waiting) h' once)

  hold_paused-HoldsOnce :
      (waiting : List (String × List SpoolItem)) (h : Host R)
      → HoldsOnce h
      → HoldsOnce (hold_paused waiting h)
  unfolding hold_paused
  hold_paused-HoldsOnce [] h once = once
  hold_paused-HoldsOnce ((agent, itens) ∷ waiting) h once =
      hold_paused-HoldsOnce waiting _ (hold_all-HoldsOnce agent (map of_paused itens) h once)

  pub gather-HoldsOnce : (now : ℕ) (h : Host R) → HoldsOnce h → HoldsOnce (gather now h)
  unfolding gather
  gather-HoldsOnce now h once =
      let h1 = hold_retained h.entries h in
      let h2 = record (hold_inbound now h1.inbound_agent_ids h1) { inbound_agent_ids = [] } in
      hold_paused-HoldsOnce h2.pause_held h2 (
        hold_inbound-HoldsOnce now h1.inbound_agent_ids h1
          (hold_retained-HoldsOnce h.entries h once))

-- What happens from the start of a drain to the writing of the spool.
pub data DrainEvent : Type 0 where
  starts : DrainReason → DrainEvent
  shuts_down gathers : DrainEvent
  sends : String → Message → DrainEvent

module _ {R : Type 0} (api : RunnerApi R) (digest : String → String) (ttl : ℕ) where
  pub step : ℕ × DrainEvent → Host R → Host R
  step (now, starts reason) h = (start_drain api now reason h).0
  step (now, shuts_down) h = (hold_in_flight_for_shutdown api now h).0
  step (now, gathers) h = gather now h
  step (now, sends agent m) h = send_message api digest ttl now agent m h

  pub run : List (ℕ × DrainEvent) → Host R → Host R
  run [] h = h
  run (e ∷ es) h = run es (step e h)

  step-HoldsOnce : (e : ℕ × DrainEvent) (h : Host R) → HoldsOnce h → HoldsOnce (step e h)
  unfolding step
  step-HoldsOnce (now, starts reason) h once = start_drain-HoldsOnce api now reason h once
  step-HoldsOnce (now, shuts_down) h once = shut_down-HoldsOnce api now h once
  step-HoldsOnce (now, gathers) h once = gather-HoldsOnce now h once
  step-HoldsOnce (now, sends agent m) h once =
      send_message-HoldsOnce api digest ttl now agent m h once

  -- Where the queue of the drain holds no delivery twice, it does so after every sequence of starts of
  -- a drain, of in-flight turns that a shutdown takes, of messages that are sent, and of gatherings of
  -- all that waits for the spool: a delivery that is in several of these places is held once.
  pub run-HoldsOnce : (es : List (ℕ × DrainEvent)) (h : Host R) → HoldsOnce h → HoldsOnce (run es h)
  unfolding run
  run-HoldsOnce [] h once = once
  run-HoldsOnce (e ∷ es) h once = run-HoldsOnce es (step e h) (step-HoldsOnce e h once)
