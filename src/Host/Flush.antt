-- ===== src/Host/Flush.antt =====
-- src/agent-host.ts: what waited for a runner goes to it (`deliverSpoolFor`, `flushInboundBuffer`,
-- `onRunnerQueueChanged`).
pub mod Fifo
use Prim.Native.String.{String}
use the_dudes_daemon.Base.{
  ℕ, Bool, true, false, Option, none, some, List, [], ◌∷◌, ◌++◌, map, if◌then◌else◌, contains,
  remove, insert, delete, comparable_string,
}
use the_dudes_daemon.Inbound
use the_dudes_daemon.Host.{
  Message, SpoolItem, SpoolRecord, RunnerApi, Host, held, has, runner_of, put_runner,
  agendar_fila_viva, push_all,
}
use the_dudes_daemon.Host.Hold.{held_now, segurar_na_pausa, hold_for_drain, hold_all}
use the_dudes_daemon.Host.Pause.{liberar_pausa}
use the_dudes_daemon.Host.Spool.{
  Payload, Vault, Leitura, lido, chave, payload, ler_registro_spool, persist_spool, of_buffered,
}

abbrev pub message_of : Option String → Payload → Message
message_of id p = record {
  content = p.content;
  images = p.images;
  delivery_id = id;
  principal = p.principal;
}

-- The variables of the loop of `deliverSpoolFor`, over a host whose runner is apart.
pub record Delivery (R : Type 0) : Type 0 where
  pub host : Host R
  pub runner : R
  pub retidos : List SpoolItem
  pub recusados : List SpoolRecord

-- The empty delivery id that the item of a drain is given: the source leaves it out.
abbrev pub without_id : Message → Message
without_id m = record m { delivery_id = none }

-- What was refused stays in the spool.
abbrev pub put_back : {R : Type 0} → String → List SpoolRecord → Host R → Host R
put_back agent [] h = h
put_back agent (r ∷ list) h = record h { spooled = insert agent (r ∷ list) h.spooled }

module _ {R : Type 0} (api : RunnerApi R) (v : Vault) (now : ℕ) (agent : String) where
  -- Whether the message went on: to the queue of the pause, to that of the drain, or to a runner that
  -- took it.
  abbrev pub deliver_one : Message → Delivery R → Delivery R × Bool
  deliver_one m d =
      let (r', taken) = api.push m true d.runner in
      if contains agent d.host.pausados
      then (record d { retidos = d.retidos ++ held_now now m ∷ [] }, true)
      else if d.host.draining
      then (
        record d { host = hold_for_drain agent (held_now now (without_id m)) false d.host },
        true,
      )
      else (record d { runner = r' }, taken)

  -- What cannot be read is dropped.
  abbrev pub deliver_read : Option String → Leitura → Delivery R → Delivery R × Bool
  deliver_read id (lido p) d = deliver_one (message_of id p) d
  deliver_read id chave d = (d, true)
  deliver_read id payload d = (d, true)

  abbrev pub go_on : List SpoolRecord → Delivery R → Delivery R → Bool → Delivery R
  go_on left rest d true = rest
  go_on left rest d false = record d { recusados = d.recusados ++ left }

  unfoldable pub deliver_records : List SpoolRecord → Delivery R → Delivery R
  deliver_records [] d = d
  deliver_records (r ∷ list) d =
      let (d', went) = deliver_read r.delivery_id (ler_registro_spool v r) d in
      go_on (r ∷ list) (deliver_records list d') d' went

  abbrev pub finish : Bool → Delivery R → Host R × List SpoolItem
  finish written d = (
    persist_spool written (put_back agent d.recusados (put_runner agent d.runner d.host)),
    d.retidos,
  )

  abbrev pub deliver_to : Bool → List SpoolRecord → Option R → Host R → Host R × List SpoolItem
  deliver_to written [] o h = (h, [])
  deliver_to written (r ∷ list) none h = (h, [])
  deliver_to written (r ∷ list) (some runner) h = finish written (
      deliver_records (r ∷ list) (record {
        host = record h { spooled = delete agent h.spooled };
        runner = runner;
        retidos = [];
        recusados = [];
      }))

  unfoldable pub deliver_spool_for : Bool → Host R → Host R × List SpoolItem
  deliver_spool_for written h = deliver_to written (held agent h.spooled) (runner_of agent h) h

  abbrev pub of_inbound : Inbound.BufferedInbound → Message
  of_inbound b = record {
    content = b.content;
    images = b.images;
    delivery_id = b.delivery_id;
    principal = none;
  }

  abbrev taken_out : Host R → Host R × List Inbound.BufferedInbound
  taken_out h =
      let (left, waiting) = Inbound.drain agent now h.inbound_buffer in
      (
        record h { inbound_buffer = left; inbound_agent_ids = remove agent h.inbound_agent_ids },
        waiting,
      )

  -- Without a runner the messages that were taken out are dropped.
  abbrev pub flush_to : List Message → Option R → Host R → Host R
  flush_to ms none h = h
  flush_to ms (some r) h = put_runner agent (push_all api ms r) h

  unfoldable pub flush_inbound_buffer : Bool → Host R → Host R
  unfolding deliver_spool_for push_all
  flush_inbound_buffer written h =
      let (h1, do_spool) = deliver_spool_for written h in
      let (h2, waiting) = taken_out h1 in
      if contains agent h1.pausados
      then agendar_fila_viva agent
          (segurar_na_pausa agent (do_spool ++ map of_buffered waiting) true h2)
      else if h1.draining
      then hold_all agent (map of_buffered waiting) h2
      else (let h3 = liberar_pausa api agent h2 in
          flush_to (map of_inbound waiting) (runner_of agent h3) h3)

  unfoldable pub on_runner_queue_changed : Bool → Host R → Host R
  unfolding deliver_spool_for
  on_runner_queue_changed written h =
      let h' = agendar_fila_viva agent h in
      if has agent h'.spooled then (deliver_spool_for written h').0 else h'
