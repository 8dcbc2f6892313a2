-- ===== src/Host/Hold.antt =====
-- src/agent-host.ts: the queue of the pause and the queue of the drain (`segurarNaPausa`,
-- `holdForDrain`, `startDrain`, `holdInFlightForShutdown`, `announceRestart`).
pub mod Unique
use Prim.Native.String.{String}
use the_dudes_daemon.Base.{
  ℕ, ◌+◌, ◌-◌, Bool, true, false, not, ◌&&◌, ◌||◌, Option, none, some, List, [], ◌∷◌, ◌++◌, map,
  any, ltb, length, keep_last, if◌then◌else◌, lookup, insert, contains, add, comparable_string,
  ◌==◌,
}
use the_dudes_daemon.Retained.{cap_por_agente}
use the_dudes_daemon.Host.{
  Message, SpoolItem, RunnerApi, Entry, DrainReason, shutdown, held_for_restart, pause_full, Host,
  held, has, put_runner, notify, truthy,
}

abbrev pub same_id : Option String → Option String → Bool
same_id none none = true
same_id (some a) (some b) = a == b
same_id none (some b) = false
same_id (some a) none = false

abbrev pub held_now : ℕ → Message → SpoolItem
held_now now m = record { message = m; enqueued_at = now; pausa = false; retido = false }

abbrev pub carries : Option String → SpoolItem → Bool
carries id item = same_id item.message.delivery_id id

-- `item.deliveryId && list.some((m) => m.deliveryId === item.deliveryId)`
abbrev pub is_held : SpoolItem → List SpoolItem → Bool
is_held item list = truthy item.message.delivery_id && any (carries item.message.delivery_id) list

module _ {R : Type 0} where
  -- `na_frente`: the items came before all that the queue holds.
  unfoldable pub segurar_na_pausa : String → List SpoolItem → Bool → Host R → Host R
  segurar_na_pausa agent [] na_frente h = h
  segurar_na_pausa agent (i ∷ itens) na_frente h =
      let atual = held agent h.pause_held in
      let lista = if na_frente then (i ∷ itens) ++ atual else atual ++ i ∷ itens in
      let h' = record h {
        pause_held = insert agent (keep_last cap_por_agente lista) h.pause_held;
      } in
      if ltb cap_por_agente (length lista)
      then notify (pause_full agent (length lista - cap_por_agente)) h'
      else h'

  unfoldable pub hold_for_drain : String → SpoolItem → Bool → Host R → Host R
  hold_for_drain agent item primeiro h =
      let list = held agent h.drain_held in
      if is_held item list then h else record h {
        drain_held =
            insert agent (if primeiro then item ∷ list else list ++ item ∷ []) h.drain_held;
      }

  unfoldable pub hold_all : String → List SpoolItem → Host R → Host R
  unfolding hold_for_drain
  hold_all agent [] h = h
  hold_all agent (i ∷ itens) h = hold_all agent itens (hold_for_drain agent i false h)

  hold_in_flight : ℕ → String → Option Message → Host R → Host R × ℕ
  unfolding hold_for_drain
  hold_in_flight now agent none h = (h, 0)
  hold_in_flight now agent (some m) h = (hold_for_drain agent (held_now now m) true h, 1)

  module _ (api : RunnerApi R) (now : ℕ) where
    -- One round of the loop over the entries, which the calls of it do not add to.
    drain_entry : String → Option R → Host R → Host R × ℕ
    drain_entry agent none h = (h, 0)
    drain_entry agent (some r) h =
        let (r', taken) = api.take_queued_for_drain r in
        (hold_all agent (map (held_now now) taken) (put_runner agent r' h), length taken)

    drain_entries : List (String × Entry R) → Host R → Host R × ℕ
    unfolding drain_entry hold_all
    drain_entries [] h = (h, 0)
    drain_entries ((agent, e) ∷ entries) h =
        let (h', moved) = drain_entry agent e.runner h in
        let (h'', more) = drain_entries entries h' in (h'', moved + more)

    unfoldable pub start_drain : DrainReason → Host R → Host R × ℕ
    unfolding drain_entries
    start_drain reason h =
        drain_entries h.entries (record h { draining = true; drain_reason = reason })

    shut_down_entry : String → Option R → Host R → Host R × ℕ
    unfolding hold_in_flight
    shut_down_entry agent none h = (h, 0)
    shut_down_entry agent (some r) h =
        let (r', in_flight) = api.take_in_flight_for_shutdown r in
        hold_in_flight now agent in_flight (put_runner agent r' h)

    shut_down_entries : List (String × Entry R) → Host R → Host R × ℕ
    unfolding shut_down_entry
    shut_down_entries [] h = (h, 0)
    shut_down_entries ((agent, e) ∷ entries) h =
        let (h', n) = shut_down_entry agent e.runner h in
        let (h'', more) = shut_down_entries entries h' in (h'', n + more)

    unfoldable pub hold_in_flight_for_shutdown : Host R → Host R × ℕ
    unfolding shut_down_entries
    hold_in_flight_for_shutdown h = shut_down_entries h.entries h

  -- The agents that hold a message and were not told yet.
  announce : List (String × List SpoolItem) → Host R → Host R × ℕ
  announce [] h = (h, 0)
  announce ((agent, items) ∷ waiting) h =
      let told = announce waiting (
        notify (held_for_restart shutdown agent)
          (record h { drain_notified = add agent h.drain_notified })) in
      let rest = announce waiting h in
      if not (has agent h.entries) || contains agent h.drain_notified
      then rest
      else (told.0, told.1 + 1)

  unfoldable pub announce_restart : Host R → Host R × ℕ
  unfolding announce
  announce_restart h = announce h.drain_held h
