-- ===== src/Host/Send.antt =====
-- src/agent-host.ts: `send_message`.
pub mod Member
pub mod Once
use Prim.Native.String.{String}
use the_dudes_daemon.Base.{
  ℕ, ◌-◌, Bool, true, false, not, ◌&&◌, ◌||◌, Option, none, some, List, [], ◌∷◌, ◌++◌,
  if◌then◌else◌, lookup, contains, add, comparable_string,
}
use the_dudes_daemon.Principal.{is_non_owner_turn}
use the_dudes_daemon.Inbound
use the_dudes_daemon.Retained
use the_dudes_daemon.Retained.{ItemRetido, inbound, reter}
use the_dudes_daemon.Host.{
  Message, SpoolItem, RunnerApi, Entry, member_blocked, held_for_restart, Host, has, put_runner,
  notify, agendar_fila_viva, truthy,
}
use the_dudes_daemon.Host.Hold.{held_now, segurar_na_pausa, hold_for_drain}

abbrev pub buffered : ℕ → Message → Inbound.BufferedInbound
buffered now m = record {
  delivery_id = m.delivery_id;
  content = m.content;
  images = m.images;
  enqueued_at = now;
}

-- The retained item has no principal.
abbrev pub retained_inbound : ℕ → Message → ItemRetido
retained_inbound now m = record {
  delivery_id = m.delivery_id;
  content = m.content;
  images = m.images;
  enqueued_at = now;
  source = inbound;
  principal = none;
}

-- Why a member's message is refused, if it is. `pending` is whether a spool is to be delivered.
module _ {R : Type 0} (api : RunnerApi R) where
  abbrev pub block_runner : Bool → Bool → Option R → Option String
  block_runner pending parado none = some "runner indisponível"
  block_runner pending parado (some r) =
      if pending
      then some "runner indisponível"
      else if parado
      then some "agente parado"
      else api.non_owner_turn_block_reason r

  abbrev pub block_entry : Bool → Option (Entry R) → Option String
  block_entry pending none = some "runner indisponível"
  block_entry pending (some e) = block_runner pending e.parado e.runner

  abbrev pub block_reason : String → Host R → Option String
  block_reason agent h =
      if h.draining
      then some "daemon reiniciando"
      else block_entry (has agent h.spooled) (lookup agent h.entries)

module _ {R : Type 0} (api : RunnerApi R) (digest : String → String) (ttl : ℕ) where
  -- The notice comes once in a drain.
  unfoldable pub hold_in_drain : ℕ → String → Message → Host R → Host R
  unfolding hold_for_drain
  hold_in_drain now agent m h =
      let h' = hold_for_drain agent (held_now now m) false h in
      if has agent h'.entries && not (contains agent h'.drain_notified)
      then notify (held_for_restart h'.drain_reason agent)
          (record h' { drain_notified = add agent h'.drain_notified })
      else h'

  unfoldable pub buffer : ℕ → String → Message → Host R → Host R
  buffer now agent m h = record h {
    inbound_agent_ids = add agent h.inbound_agent_ids;
    inbound_buffer = (Inbound.push agent (buffered now m) now h.inbound_buffer).0;
  }

  unfoldable pub retain : ℕ → String → Message → Host R → Host R
  retain now agent m h = record h {
    retained = (reter digest ttl now agent (retained_inbound now m ∷ []) h.retained).0;
  }

  to_runner : ℕ → String → Message → Host R → Bool → Option R → Host R
  unfolding buffer retain
  to_runner now agent m h parado none = buffer now agent m h
  to_runner now agent m h parado (some r) =
      if has agent h.spooled
      then buffer now agent m h
      else if parado
      then retain now agent m h
      else put_runner agent (api.push m false r).0 h

  deliver : ℕ → String → Message → Host R → Option (Entry R) → Host R
  unfolding to_runner buffer
  deliver now agent m h none = buffer now agent m h
  deliver now agent m h (some e) = to_runner now agent m h e.parado e.runner

  unfoldable pub send_message_inner : ℕ → String → Message → Host R → Host R
  unfolding deliver hold_in_drain segurar_na_pausa
  send_message_inner now agent m h =
      if contains agent h.pausados
      then segurar_na_pausa agent (held_now now m ∷ []) false h
      else if is_non_owner_turn m.principal && truthy (block_reason api agent h)
      then notify (member_blocked agent) h
      else if h.draining
      then hold_in_drain now agent m h
      else deliver now agent m h (lookup agent h.entries)

  unfoldable pub send_message : ℕ → String → Message → Host R → Host R
  unfolding send_message_inner
  send_message now agent m h = agendar_fila_viva agent (send_message_inner now agent m h)
