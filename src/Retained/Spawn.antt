-- ===== src/Retained/Spawn.antt =====
-- `entregarFilaRetida` of src/agent-host.ts: what an agent held while it was stopped goes to its new
-- runner. Whether `pushUserMessage` throws on an item is the argument `falha`.
use Prim.Native.String.{String}
use the_dudes_daemon.Base.{
  ℕ, Bool, false, not, ◌&&◌, Option, none, some, List, [], ◌∷◌, if◌then◌else◌,
}
use the_dudes_daemon.Retained.{ItemRetido, Retencao, expirar, tomar, devolver}

-- The fields of the host's entry that the handler reads, and whether the agent is in `pausados`.
pub record Entrada : Type 0 where
  pub runner : Bool
  pub queue_auto_redeliver : Option Bool
  pub pausado : Bool

-- `e.queueAutoRedeliver === false`
abbrev desligada : Option Bool → Bool
desligada none = false
desligada (some b) = not b

-- The guards before the queue is taken.
abbrev pub pronta : Entrada → Bool
pronta e = e.runner && (not (desligada e.queue_auto_redeliver) && not e.pausado)

module _ (digest : String → String) (falha : ItemRetido → Bool) (agent : String) where
  -- The items that the runner takes, in order, and the queue after each that it refuses.
  unfoldable pub entregar : List ItemRetido → Retencao → Retencao × List ItemRetido
  entregar [] r = (r, [])
  entregar (i ∷ is) r =
      let refused = entregar is (devolver digest agent (i ∷ []) r) in
      let (r', entregues) = entregar is r in if falha i then refused else (r', i ∷ entregues)

  unfoldable pub entregar_fila_retida :
      ℕ → ℕ → Option Entrada → Retencao → Retencao × List ItemRetido
  unfolding entregar
  entregar_fila_retida ttl now none r = ((expirar digest ttl now r).0, [])
  entregar_fila_retida ttl now (some e) r =
      let r' = (expirar digest ttl now r).0 in
      let (left, itens) = tomar digest agent r' in
      if pronta e then entregar itens left else (r', [])
