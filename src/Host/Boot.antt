-- ===== src/Host/Boot.antt =====
-- src/agent-host.ts, `loadReexecSpool`: what the process before left. An entry of the file that is no
-- record is `none`; what expired goes to the retained queue.
pub mod Kept
use Prim.Native.String.{String}
use the_dudes_daemon.Base.{
  ℕ, suc, zero, ◌+◌, ◌*◌, Bool, true, false, not, ◌||◌, Option, none, some, List, [], ◌∷◌, ◌++◌,
  if◌then◌else◌, ltb, insert, comparable_string, comparable_nat, ◌==◌,
}
use the_dudes_daemon.Retained.{ItemRetido, Contagem, inbound_ttl, reter}
use the_dudes_daemon.Host.{SpoolRecord, Host, held}
use the_dudes_daemon.Host.Spool.{
  Payload, Vault, Leitura, lido, chave, payload, is_v2, ler_registro_spool, persist_spool,
}

abbrev pub spool_ttl_ms : ℕ
spool_ttl_ms = 60 * 60000

-- A record that expired, as an item of its real age.
abbrev pub expired_item : ℕ → SpoolRecord → Payload → ItemRetido
expired_item now r p = record {
  delivery_id = r.delivery_id;
  content = p.content;
  images = p.images;
  enqueued_at = if r.enqueued_at == 0 then now else r.enqueued_at;
  source = inbound_ttl;
  principal = p.principal;
}

-- What the loop counts: the records to deliver, those that went to the retained queue, and those
-- that cannot be read.
pub record Loaded : Type 0 where
  pub n : ℕ
  pub retidas_por_ttl : ℕ
  pub perdas_por_ttl : ℕ

abbrev pub nothing_loaded : Loaded
nothing_loaded = record { n = 0; retidas_por_ttl = 0; perdas_por_ttl = 0 }

-- The items of the pause and of the retained queue have the time to live of the latter.
abbrev pub ttl_of : ℕ → SpoolRecord → ℕ
ttl_of ttl r = if r.pausa || r.retido then ttl else spool_ttl_ms

abbrev pub expired : ℕ → ℕ → SpoolRecord → Bool
expired ttl now r = ltb (r.enqueued_at + ttl_of ttl r) now

module _ {R : Type 0} (v : Vault) (digest : String → String) (ttl now : ℕ) where
  retain_expired : SpoolRecord → Leitura → Host R → Loaded → Host R × Loaded
  retain_expired r (lido p) h l =
      let (retained, c) = reter digest ttl now r.agent_id (expired_item now r p ∷ []) h.retained in
      (
        record h {
          retained = retained;
          retido_no_boot = insert r.agent_id r.project_id h.retido_no_boot;
        },
        record l { retidas_por_ttl = l.retidas_por_ttl + c.retidos },
      )
  retain_expired r chave h l = (h, record l { perdas_por_ttl = suc l.perdas_por_ttl })
  retain_expired r payload h l = (h, record l { perdas_por_ttl = suc l.perdas_por_ttl })

  unfoldable pub load_one : Option SpoolRecord → Host R → Loaded → Host R × Loaded
  unfolding retain_expired
  load_one none h l = (h, l)
  load_one (some r) h l =
      if is_v2 r.blob
      then (if expired ttl now r then retain_expired r (ler_registro_spool v r) h l else (
        record h { spooled = insert r.agent_id (held r.agent_id h.spooled ++ r ∷ []) h.spooled },
        record l { n = suc l.n },
      ))
      else (h, l)

  unfoldable pub load_all : List (Option SpoolRecord) → Host R → Loaded → Host R × Loaded
  unfolding load_one
  load_all [] h l = (h, l)
  load_all (r ∷ records) h l = let (h', l') = load_one r h l in load_all records h' l'

  -- `file` is `none` where it is missing or no JSON.
  unfoldable pub load_reexec_spool :
      Bool → Option (List (Option SpoolRecord)) → Host R → Host R × Loaded
  unfolding load_all persist_spool
  load_reexec_spool written none h = (h, nothing_loaded)
  load_reexec_spool written (some file) h =
      let (h', l) = load_all file (record h { spool_path = true }) nothing_loaded in
      (persist_spool written h', l)
