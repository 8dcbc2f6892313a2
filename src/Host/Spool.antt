-- ===== src/Host/Spool.antt =====
-- src/agent-host.ts: the spool that carries what is held over a re-exec. The blob of a message is
-- `JSON.stringify` under the project's encryption, the file is the list of its records, and a call
-- that throws where it writes or renames answers false.
pub mod RoundTrip
pub mod Carried
pub mod Once
pub mod Gathered
use Prim.Native.String.{String}
use text.Mathlib.Text.{starts_with}
use the_dudes_daemon.Base.{
  ℕ, suc, ◌+◌, Bool, true, false, not, ◌&&◌, Option, none, some, List, [], ◌∷◌, ◌++◌, map,
  if◌then◌else◌, length, lookup, comparable_string, ◌>>=◌,
}
use the_dudes_daemon.Principal.{Principal}
use the_dudes_daemon.Inbound
use the_dudes_daemon.Retained.{ItemRetido, Retencao, listar, esquecer}
use the_dudes_daemon.Host.{Message, SpoolItem, SpoolRecord, Entry, Host, held, truthy}
use the_dudes_daemon.Host.Hold.{hold_for_drain, hold_all}

-- What the spool stores of a message.
pub record Payload : Type 0 where
  pub content : String
  pub images : Option (List String)
  pub principal : Option Principal

-- `decrypt` gives nothing where the source throws or gives null, and so does `parse`, also for a
-- content that is no text.
pub record Vault : Type 0 where
  pub stringify : Payload → String
  pub parse : String → Option Payload
  pub encrypt : String → String → Option String
  pub decrypt : String → String → Option String

pub data Leitura : Type 0 where
  lido : Payload → Leitura
  chave payload : Leitura

abbrev pub of_text : Option Payload → Leitura
of_text none = payload
of_text (some p) = lido p

unfoldable pub is_v2 : String → Bool
is_v2 blob = starts_with blob "e2e:v2:"

abbrev pub payload_of : Message → Payload
payload_of m = record { content = m.content; images = m.images; principal = m.principal }

abbrev pub of_retained : ItemRetido → SpoolItem
of_retained i = record {
  message = record {
    content = i.content;
    images = i.images;
    delivery_id = i.delivery_id;
    principal = i.principal;
  };
  enqueued_at = i.enqueued_at;
  pausa = false;
  retido = true;
}

abbrev pub of_buffered : Inbound.BufferedInbound → SpoolItem
of_buffered b = record {
  message = record {
    content = b.content;
    images = b.images;
    delivery_id = b.delivery_id;
    principal = none;
  };
  enqueued_at = b.enqueued_at;
  pausa = false;
  retido = false;
}

abbrev pub of_paused : SpoolItem → SpoolItem
of_paused i = record i { pausa = true }

-- What came of the loop over the items that are held.
pub record Sealed : Type 0 where
  pub records : List SpoolRecord
  pub lost : ℕ
  pub lost_delivery_ids : List String

abbrev pub sealed_nothing : Sealed
sealed_nothing = record { records = []; lost = 0; lost_delivery_ids = [] }

abbrev pub values {ℓ} : {A : Type ℓ} → List (String × List A) → List A
values [] = []
values ((agent, items) ∷ m) = items ++ values m

abbrev lost_id : Option String → List String
lost_id none = []
lost_id (some id) = if truthy (some id) then id ∷ [] else []

abbrev pub record_of : String → String → SpoolItem → String → SpoolRecord
record_of agent project i blob = record {
  agent_id = agent;
  project_id = project;
  delivery_id = i.message.delivery_id;
  enqueued_at = i.enqueued_at;
  blob = blob;
  pausa = i.pausa;
  retido = i.retido;
}

abbrev pub tally : SpoolItem → Sealed → Option SpoolRecord → Sealed
tally i rest (some r) = record rest { records = r ∷ rest.records }
tally i rest none = record rest {
  lost = suc rest.lost;
  lost_delivery_ids = lost_id i.message.delivery_id ++ rest.lost_delivery_ids;
}

abbrev pub project_of : {R : Type 0} → String → Host R → Option String
project_of agent h = lookup agent h.entries >>= λ e. e.project_id

module _ (v : Vault) where
  abbrev pub of_plain : Option String → Leitura
  of_plain none = chave
  of_plain (some plain) = of_text (v.parse plain)

  unfoldable pub ler_registro_spool : SpoolRecord → Leitura
  ler_registro_spool r = of_plain (v.decrypt r.project_id r.blob)

  -- The record of an item; none without a project, without its key, or of another format.
  unfoldable pub seal : String → Option String → SpoolItem → Option SpoolRecord
  unfolding is_v2
  seal agent none i = none
  seal agent (some project) i = do
    blob ← v.encrypt project (v.stringify (payload_of i.message))
    if truthy (some project) && is_v2 blob then some (record_of agent project i blob) else none

  unfoldable pub seal_items : String → Option String → List SpoolItem → Sealed
  seal_items agent project [] = sealed_nothing
  seal_items agent project (i ∷ items) =
      tally i (seal_items agent project items) (seal agent project i)

  module _ {R : Type 0} where
    unfoldable pub seal_held : Host R → List (String × List SpoolItem) → Sealed
    unfolding seal_items
    seal_held h [] = sealed_nothing
    seal_held h ((agent, items) ∷ waiting) =
        let first = seal_items agent (project_of agent h) items in
        let rest = seal_held h waiting in
        record {
          records = first.records ++ rest.records;
          lost = first.lost + rest.lost;
          lost_delivery_ids = first.lost_delivery_ids ++ rest.lost_delivery_ids;
        }

module _ {R : Type 0} where
  hold_retained : List (String × Entry R) → Host R → Host R
  unfolding hold_all
  hold_retained [] h = h
  hold_retained ((agent, e) ∷ entries) h =
      hold_retained entries (hold_all agent (map of_retained (listar agent h.retained)) h)

  hold_inbound : ℕ → List String → Host R → Host R
  unfolding hold_all
  hold_inbound now [] h = h
  hold_inbound now (agent ∷ ids) h =
      let (left, waiting) = Inbound.drain agent now h.inbound_buffer in
      hold_inbound now ids
        (hold_all agent (map of_buffered waiting) (record h { inbound_buffer = left }))

  hold_paused : List (String × List SpoolItem) → Host R → Host R
  unfolding hold_all
  hold_paused [] h = h
  hold_paused ((agent, itens) ∷ waiting) h =
      hold_paused waiting (hold_all agent (map of_paused itens) h)

  -- Everything that waits comes to the queue of the drain.
  unfoldable pub gather : ℕ → Host R → Host R
  unfolding hold_retained hold_inbound hold_paused
  gather now h =
      let h1 = hold_retained h.entries h in
      let h2 = record (hold_inbound now h1.inbound_agent_ids h1) { inbound_agent_ids = [] } in
      record (hold_paused h2.pause_held h2) { pause_held = [] }

  pub forget_retained : (String → String) → List (String × Entry R) → Retencao → Retencao → Retencao
  forget_retained digest [] before r = r
  forget_retained digest ((agent, e) ∷ entries) before r =
      forget_retained digest entries before
        (elim (listar agent before) [ [] ↦ r | _ ∷ _ ↦ (esquecer digest agent r).0 ])

  abbrev pub cleared : (String → String) → Host R → List SpoolRecord → Host R → Host R
  cleared digest h records g = record g {
    disk = some records;
    drain_held = [];
    spooled = [];
    retained = forget_retained digest g.entries h.retained g.retained;
  }

  abbrev pub written_out :
      (String → String)
      → Bool
      → Host R
      → Host R
      → Sealed
      → List SpoolRecord
      → Host R × Option Sealed
  written_out digest written h g s [] = (record g { drain_held = [] }, some s)
  written_out digest written h g s (r ∷ records) =
      if written then (cleared digest h (r ∷ records) g, some s) else (g, none)

  -- The records and the losses, or nothing where the file is not written: then all that is held
  -- stays in memory.
  unfoldable pub write_reexec_spool :
      Vault → (String → String) → Bool → ℕ → Host R → Host R × Option Sealed
  unfolding forget_retained
  write_reexec_spool v digest written now h =
      let g = gather now h in
      let s = seal_held v g g.drain_held in
      let all = record s { records = s.records ++ values g.spooled } in
      written_out digest written h g all all.records

  -- `written`: neither the write nor the rename, nor the removal, throws.
  unfoldable pub persist_spool : Bool → Host R → Host R
  persist_spool written h =
      if h.spool_path && written
      then elim (values h.spooled) [
        | [] ↦ record h { disk = none; spool_path = false }
        | _ ∷ _ ↦ record h { disk = some (values h.spooled) }
      ]
      else h

  unfoldable pub spool_pending_count : Host R → ℕ
  spool_pending_count h = length (values h.spooled)
