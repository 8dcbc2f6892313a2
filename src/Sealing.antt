-- ===== src/Sealing.antt =====
-- What leaves the daemon sealed: `selar`, `origemDoFrame` and `registroDoFrame` of src/queue-live.ts, and
-- `paraFio` of src/queue-retained.ts. The encryption of src/daemon-crypto.ts is a parameter, and so are
-- the prefix test of a text and the digest of an acknowledgement. Of an image only its base64 text
-- stands here; its other fields pass through.
mod Secrecy
mod Examples
use Prim.Native.String.{String}
use the_dudes_daemon.Base.{
  ℕ, Bool, true, false, not, ◌&&◌, Option, none, some, List, [], ◌∷◌, if◌then◌else◌,
  comparable_string, ◌==◌,
}
use the_dudes_daemon.Principal.{Origin, user, agent, system, Principal, Sender}
use the_dudes_daemon.Snapshot.{WireRecord}
use the_dudes_daemon.Retained.{ItemRetido, FonteRetencao}

pub record Frame : Type 0 where
  pub content : Option String
  pub parts : Bool
  pub images : Option (List String)
  pub project_id : Option String
  pub origin : Option Origin
  pub silent : Bool
  pub system_prefix : Option String

pub record ItemNoFio : Type 0 where
  pub delivery_id : Option String
  pub cipher : String
  pub images_cipher : Option (List String)
  pub enqueued_at : ℕ
  pub source : FonteRetencao
  pub ack : String
  pub sender : Option Sender

pub record Envio : Type 0 where
  pub enviar : List ItemNoFio
  pub sem_chave : List ItemRetido

abbrev non_empty : Option (List String) → Option (List String)
non_empty none = none
non_empty (some []) = none
non_empty (some (i ∷ is)) = some (i ∷ is)

-- `pid && ...`
abbrev pub truthy : Option String → Option String
truthy none = none
truthy (some s) = if s == "" then none else some s

abbrev paired : String → Option (List String) → Option (String × Option (List String))
paired c none = none
paired c (some bs) = some (c, some bs)

abbrev sender_of : Option Principal → Option Sender
sender_of none = none
sender_of (some p) = p.from

module _ (is_e2ee : String → Bool) (encrypt encrypt_image : String → String → Option String)
    (has_key : String → Bool) where
  pub cifrar : String → String → Option String
  cifrar project content = if is_e2ee content then some content else encrypt content project

  abbrev cifrar_imagem : String → String → Option String
  cifrar_imagem project image = if is_e2ee image then some image else encrypt_image image project

  abbrev and_image : Option String → Option (List String) → Option (List String)
  and_image (some b) (some bs) = some (b ∷ bs)
  and_image _ _ = none

  -- `none` where one of them cannot be encrypted.
  cifrar_imagens : String → List String → Option (List String)
  cifrar_imagens project [] = some []
  cifrar_imagens project (i ∷ is) =
      and_image (truthy (cifrar_imagem project i)) (cifrar_imagens project is)

  with_images :
      String → Option (List String) → Option String → Option (String × Option (List String))
  unfolding cifrar_imagens
  with_images project images none = none
  with_images project none (some c) = some (c, none)
  with_images project (some is) (some c) = paired c (cifrar_imagens project is)

  pub selar : Option String → String → Option (List String) → Option (String × Option (List String))
  unfolding with_images
  selar none content images = none
  selar (some project) content images =
      if not (project == "") && has_key project
      then with_images project (non_empty images) (truthy (cifrar project content))
      else none

  -- `systemPrefix.trimStart().startsWith("[from ")`
  module _ (from_agent : String → Bool) where
    pub origem_do_frame : Frame → Origin
    origem_do_frame msg = elim msg.origin [
      | some o ↦ o
      | none ↦ elim msg.system_prefix [
        | none ↦ if msg.parts then system else Origin.user
        | some prefix ↦
            if from_agent prefix then Origin.agent else if msg.parts then system else Origin.user
      ]
    ]

    registro : Frame → ℕ → String → Option (List String) → WireRecord
    registro msg agora content images = record {
      content = content;
      images = images;
      enqueued_at = agora;
      origin = origem_do_frame msg;
      silent = msg.silent;
    }

    abbrev sealed_record : Frame → ℕ → Option (String × Option (List String)) → Option WireRecord
    sealed_record msg agora none = none
    sealed_record msg agora (some (content, images)) = some (registro msg agora content images)

    -- `pid && hasProjectKey(pid)`
    abbrev pub with_key : Option String → Bool
    with_key none = false
    with_key (some project) = not (project == "") && has_key project

    -- A frame without one blob, or with one that is not encrypted.
    remontado : Frame → String → Option (List String) → ℕ → Option WireRecord
    unfolding registro
    remontado msg final images agora =
        if with_key msg.project_id
        then sealed_record msg agora (selar msg.project_id final images)
        else some (registro msg agora final (non_empty images))

    com_conteudo : Option String → Frame → String → Option (List String) → ℕ → Option WireRecord
    unfolding remontado registro
    com_conteudo none msg final images agora = remontado msg final images agora
    com_conteudo (some blob) msg final images agora =
        if not msg.parts && is_e2ee blob
        then some (registro msg agora blob (non_empty msg.images))
        else remontado msg final images agora

    pub registro_do_frame : Frame → String → Option (List String) → ℕ → Option WireRecord
    unfolding com_conteudo
    registro_do_frame msg final images agora = com_conteudo msg.content msg final images agora

  -- The images that could be encrypted and are not empty.
  imagens_no_fio : String → List String → List String
  imagens_no_fio project [] = []
  imagens_no_fio project (i ∷ is) = elim (truthy (cifrar_imagem project i)) [
    | none ↦ imagens_no_fio project is
    | some b ↦ b ∷ imagens_no_fio project is
  ]

  -- `ack` is the digest of the agent, the delivery id and the cipher text.
  module _ (ack : Option String → String → String) (project : String) where
    abbrev no_fio : ItemRetido → String → ItemNoFio
    no_fio item cipher = record {
      delivery_id = item.delivery_id;
      cipher = cipher;
      images_cipher =
          non_empty (elim item.images [ none ↦ none | some is ↦ some (imagens_no_fio project is) ]);
      enqueued_at = item.enqueued_at;
      source = item.source;
      ack = ack item.delivery_id cipher;
      sender = sender_of item.principal;
    }

    juntar : ItemRetido → Option String → Envio → Envio
    juntar item none e = record e { sem_chave = item ∷ e.sem_chave }
    juntar item (some cipher) e = record e { enviar = no_fio item cipher ∷ e.enviar }

    pub para_fio : List ItemRetido → Envio
    unfolding juntar
    para_fio [] = record { enviar = []; sem_chave = [] }
    para_fio (item ∷ itens) = juntar item (truthy (cifrar project item.content)) (para_fio itens)
