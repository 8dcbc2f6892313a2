-- ===== src/Snapshot.antt =====
-- src/queue-live.ts, `montarSnapshot`: the frame that shows what waits for an agent. Parameters are
-- the measure of an item, which the protocol defines, the sealing of a text with the project's key
-- (`selar`) and the text of the id made from a number. An image is opaque.
mod Ceilings
mod Examples
use Prim.Native.String.{String}
use the_dudes_daemon.Base.{
  ℕ, suc, ◌+◌, Bool, true, false, not, ◌&&◌, Option, none, some, List, [], ◌∷◌, ◌++◌, map, leb, ltb,
  length, if◌then◌else◌, contains, add, lookup, comparable_string, ◌==◌,
}
use the_dudes_daemon.Principal.{Origin, system, same_option}
use the_dudes_daemon.Dedup.{is_id}

-- `sender`, which the snapshot does not read, is left out.
pub record WireRecord : Type 0 where
  pub content : String
  pub images : Option (List String)
  pub enqueued_at : ℕ
  pub origin : Origin
  pub silent : Bool

pub record QueueLiveItem : Type 0 where
  pub delivery_id : String
  pub content : String
  pub images : Option (List String)
  pub enqueued_at : ℕ
  pub origin : Origin
  pub silent : Bool

pub record PendingItem : Type 0 where
  pub content : String
  pub images : Option (List String)
  pub delivery_id : Option String
  pub coalesced_ids : Option (List String)

-- The variables of the loop.
pub record Snapshot : Type 0 where
  pub items : List QueueLiveItem
  pub bytes : ℕ
  pub truncated : Bool
  pub omitidos : ℕ
  pub sem_id : ℕ
  pub vistos : List String

pub vazio : Snapshot
vazio = record { items = []; bytes = 0; truncated = false; omitidos = 0; sem_id = 0; vistos = [] }

-- `images?.length ? images : undefined`
abbrev some_images : Option (List String) → Option (List String)
some_images none = none
some_images (some []) = none
some_images (some (i ∷ is)) = some (i ∷ is)

-- `[p.deliveryId, ...(p.coalescedIds ?? [])]`
abbrev ids_of : PendingItem → List (Option String)
ids_of p = p.delivery_id ∷ elim p.coalesced_ids [ none ↦ [] | some ids ↦ map some ids ]

pub record Tetos : Type 0 where
  pub max_itens : ℕ
  pub max_bytes : ℕ

module _ (medir : QueueLiveItem → ℕ) (tetos : Tetos) where
  pub empurrar : QueueLiveItem → Snapshot → Snapshot
  empurrar it s =
      if leb tetos.max_itens (length s.items)
      then record s { truncated = true }
      else if ltb tetos.max_bytes (s.bytes + medir it)
      then record s { truncated = true }
      else record s { bytes = s.bytes + medir it; items = s.items ++ it ∷ [] }

  -- What is put on the wire for an item without a record.
  module _ (selar : String → Option (List String) → Option (String × Option (List String)))
      (nome : ℕ → String) (cifrado : Bool) (agora : ℕ)
      (registros : List (String × WireRecord)) where
    selado : PendingItem → Option (String × Option (List String))
    selado p = if cifrado then selar p.content p.images else some (p.content, some_images p.images)

    -- The id of the item, and the number of the next one without an id.
    abbrev id_ou_nome : Option String → ℕ → String × ℕ
    id_ou_nome none n = (nome n, suc n)
    id_ou_nome (some id) n = (id, n)

    interno : PendingItem → Option (String × Option (List String)) → Snapshot → Snapshot
    interno p none s = record s { omitidos = s.omitidos + 1 }
    interno p (some (content, images)) s =
        let (id, n) = id_ou_nome p.delivery_id s.sem_id in
        empurrar
          (record {
            delivery_id = id;
            content = content;
            images = images;
            enqueued_at = agora;
            origin = system;
            silent = false;
          })
          (record s { sem_id = n })

    registrado : String → WireRecord → Snapshot → Snapshot
    registrado id reg s =
        empurrar
          (record {
            delivery_id = id;
            content = reg.content;
            images = reg.images;
            enqueued_at = reg.enqueued_at;
            origin = reg.origin;
            silent = reg.silent;
          })
          s

    sem_registro : PendingItem → Option String → Snapshot → Snapshot
    unfolding selado interno
    sem_registro p id s =
        if same_option (λ x y. x == y) id p.delivery_id then interno p (selado p) s else s

    com_registro : PendingItem → String → Option WireRecord → Snapshot → Snapshot
    unfolding registrado sem_registro
    com_registro p id (some reg) s = registrado id reg s
    com_registro p id none s = sem_registro p (some id) s

    -- One round for one id. Once the snapshot is truncated both loops have ended.
    por_id : PendingItem → Snapshot → Option String → Snapshot
    unfolding com_registro sem_registro
    por_id p s none = if s.truncated then s else sem_registro p none s
    por_id p s (some id) =
        let s' = record s { vistos = add id s.vistos } in
        if s.truncated
        then s
        else if not (is_id (some id))
        then sem_registro p (some id) s
        else if contains id s.vistos
        then s
        else com_registro p id (lookup id registros) s'

    por_ids : PendingItem → List (Option String) → Snapshot → Snapshot
    por_ids p [] s = s
    por_ids p (id ∷ ids) s = por_ids p ids (por_id p s id)

    pub montar : List PendingItem → Snapshot → Snapshot
    unfolding por_ids
    montar [] s = s
    montar (p ∷ ps) s = montar ps (por_ids p (ids_of p) s)

    pub montar_snapshot : List PendingItem → Snapshot
    unfolding montar
    montar_snapshot pendentes = montar pendentes vazio
