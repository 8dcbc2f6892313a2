-- ===== src/Retained.antt =====
-- src/queue-retained.ts: the queue of a stopped agent, held until it runs again. `Date.now()` is the
-- argument `now`; `TTL_ITEM_MS`, which the environment sets, and the shortened SHA-256 digest are
-- parameters. `paraFio`, which encrypts, is in the module `Sealing`.
mod Lists
mod Reter
mod Agent
mod Spawn
mod Reversal
mod Examples
use Prim.Native.String.{String}
use Prim.Native.String
use the_dudes_daemon.Base.{
  ℕ, zero, suc, ◌+◌, ◌-◌, Bool, true, false, not, Option, none, some, List, [], ◌∷◌, ◌++◌, map, leb,
  ltb, length, if◌then◌else◌, filter, contains, add, remove, lookup, insert, delete,
  comparable_string, comparable_nat, ◌==◌,
}
use the_dudes_daemon.Principal.{Principal}

pub data FonteRetencao : Type 0 where
  stop inbound_ttl manual inbound replace context_clear loop_stop migrate : FonteRetencao

abbrev fonte_text : FonteRetencao → String
fonte_text stop = "stop"
fonte_text inbound_ttl = "inbound-ttl"
fonte_text manual = "manual"
fonte_text inbound = "inbound"
fonte_text replace = "replace"
fonte_text context_clear = "context-clear"
fonte_text loop_stop = "loop-stop"
fonte_text migrate = "migrate"

pub record ItemRetido : Type 0 where
  pub delivery_id : Option String
  pub content : String
  pub images : Option (List String)
  pub enqueued_at : ℕ
  pub source : FonteRetencao
  pub principal : Option Principal

abbrev pub cap_por_agente : ℕ
cap_por_agente = 200

pub record Estado : Type 0 where
  pub itens : List ItemRetido
  pub descartados : ℕ

-- The two maps of the module.
pub record Retencao : Type 0 where
  pub por_agente : List (String × Estado)
  pub chaves_de : List (String × List String)

unfoldable pub vazia : Retencao
vazia = record { por_agente = []; chaves_de = [] }

abbrev estado_vazio : Estado
estado_vazio = record { itens = []; descartados = 0 }

-- `porAgente.get(agentId) ?? { itens: [], descartados: 0 }`
abbrev pub or_vazio : Option Estado → Estado
or_vazio none = estado_vazio
or_vazio (some e) = e

abbrev pub or_empty {ℓ} : {A : Type ℓ} → Option (List A) → List A
or_empty none = []
or_empty (some xs) = xs

abbrev pub estado_de : String → Retencao → Estado
estado_de agent r = or_vazio (lookup agent r.por_agente)

abbrev pub chaves : String → Retencao → List String
chaves agent r = or_empty (lookup agent r.chaves_de)

-- `agora - i.enqueuedAt <= TTL_ITEM_MS`
abbrev pub vivo : ℕ → ℕ → ItemRetido → Bool
vivo ttl now i = leb now (i.enqueued_at + ttl)

unfoldable pub listar : String → Retencao → List ItemRetido
listar agent r = (estado_de agent r).itens

pub tamanho : String → Retencao → ℕ
tamanho agent r = length (estado_de agent r).itens

total_de : List (String × Estado) → ℕ
total_de [] = 0
total_de ((agent, e) ∷ m) = length e.itens + total_de m

pub total_retido : Retencao → ℕ
unfolding total_de
total_retido r = total_de r.por_agente

pub record Contagem : Type 0 where
  pub retidos : ℕ
  pub duplicados : ℕ
  pub descartados : ℕ

-- The loop variables of `reter`.
pub record Lote : Type 0 where
  pub itens : List ItemRetido
  pub chaves : List String
  pub perdidos : ℕ
  pub contagem : Contagem

module _ (digest : String → String) where
  pub chave_item : ItemRetido → String
  chave_item i =
      let hashed =
        String.◌++◌ "h:"
          (digest (String.◌++◌ (fonte_text i.source) (String.◌++◌ "\n" i.content))) in
      elim i.delivery_id [
        | none ↦ hashed
        | some id ↦ if id == "" then hashed else String.◌++◌ "d:" id
      ]

  -- `while (itens.length > CAP_POR_AGENTE)`, over the items that are too many.
  podar : List ItemRetido → Lote → Lote
  podar [] l = record l { itens = [] }
  podar (velho ∷ itens) l =
      let shorter = podar itens (record l {
        chaves = remove (chave_item velho) l.chaves;
        perdidos = l.perdidos + 1;
        contagem = record l.contagem { descartados = l.contagem.descartados + 1 };
      }) in
      if ltb cap_por_agente (length (velho ∷ itens))
      then shorter
      else record l { itens = velho ∷ itens }

  -- One round of the loop over the items that come.
  reter_um : ItemRetido → Lote → Lote
  unfolding podar
  reter_um i l =
      if contains (chave_item i) l.chaves
      then record l { contagem = record l.contagem { duplicados = l.contagem.duplicados + 1 } }
      else podar (l.itens ++ i ∷ []) (record l {
        chaves = add (chave_item i) l.chaves;
        contagem = record l.contagem { retidos = l.contagem.retidos + 1 };
      })

  pub reter_todos : List ItemRetido → Lote → Lote
  reter_todos [] l = l
  reter_todos (i ∷ is) l = reter_todos is (reter_um i l)

  -- The loop of `expirar`: the entries that stay, with the keys of each agent, and how many items
  -- left.
  expirar_de : ℕ → ℕ → List (String × Estado) → List (String × List String) → Retencao × ℕ
  expirar_de ttl now [] ks = (record { por_agente = []; chaves_de = ks }, 0)
  expirar_de ttl now ((agent, e) ∷ m) ks =
      let itens = filter (vivo ttl now) e.itens in
      let removidos = length e.itens - length itens in
      let ks' =
        (if ltb 0 removidos
          then elim (lookup agent ks) [
            | none ↦ ks
            | some _ ↦ insert agent (map chave_item itens) ks
          ]
          else ks) in
      let (r, saiu) = expirar_de ttl now m ks' in
      let kept = (agent, record e { itens = itens }) ∷ r.por_agente in
      if ltb 0 removidos
      then (
        record r { por_agente = if length itens == 0 then r.por_agente else kept },
        saiu + removidos,
      )
      else (record r { por_agente = kept }, saiu)

  pub expirar : ℕ → ℕ → Retencao → Retencao × ℕ
  unfolding expirar_de
  expirar ttl now r = expirar_de ttl now r.por_agente r.chaves_de

  abbrev nada : Contagem
  nada = record { retidos = 0; duplicados = 0; descartados = 0 }

  guardar : String → Lote → Retencao → Retencao
  guardar agent l r =
      let e = estado_de agent r in
      record {
        por_agente =
            insert agent (record { itens = l.itens; descartados = e.descartados + l.perdidos })
              r.por_agente;
        chaves_de = insert agent l.chaves r.chaves_de;
      }

  pub reter : ℕ → ℕ → String → List ItemRetido → Retencao → Retencao × Contagem
  unfolding guardar
  reter ttl now agent [] r = ((expirar ttl now r).0, nada)
  reter ttl now agent (i ∷ is) r =
      let r' = (expirar ttl now r).0 in
      let l = reter_todos (i ∷ is) (record {
        itens = (estado_de agent r').itens;
        chaves = chaves agent r';
        perdidos = 0;
        contagem = nada;
      }) in
      (guardar agent l r', l.contagem)

  tomar_estado : String → Option Estado → Retencao → Retencao × List ItemRetido
  tomar_estado agent none r = (r, [])
  tomar_estado agent (some e) r = (
    record {
      por_agente = insert agent (record e { itens = [] }) r.por_agente;
      chaves_de = insert agent [] r.chaves_de;
    },
    e.itens,
  )

  pub tomar : String → Retencao → Retencao × List ItemRetido
  unfolding tomar_estado
  tomar agent r = tomar_estado agent (lookup agent r.por_agente) r

  adicionar : List ItemRetido → List String → List String
  adicionar [] ks = ks
  adicionar (i ∷ is) ks = adicionar is (add (chave_item i) ks)

  pub devolver : String → List ItemRetido → Retencao → Retencao
  unfolding adicionar
  devolver agent [] r = r
  devolver agent (i ∷ is) r =
      let e = estado_de agent r in
      record {
        por_agente = insert agent (record e { itens = (i ∷ is) ++ e.itens }) r.por_agente;
        chaves_de = insert agent (adicionar (i ∷ is) (chaves agent r)) r.chaves_de;
      }

  unfoldable pub esquecer : String → Retencao → Retencao × ℕ
  esquecer agent r = (
    record { por_agente = delete agent r.por_agente; chaves_de = delete agent r.chaves_de },
    length (estado_de agent r).itens,
  )
