-- ===== src/Sealing/Secrecy.antt =====
-- Nothing of a project with a key leaves in the clear. That `encryptForProject` returns a text that
-- `isE2eEncrypted` recognises is the hypothesis `seals`.
use Prim.Native.String.{String}
use the_dudes_daemon.Base.{
  ℕ, ◌+◌, ◌≡◌, refl, sym, subst, Bool, true, false, not, ◌&&◌, Option, none, some, List, [], ◌∷◌,
  arith, length, All, if◌then◌else◌, inl, inr, Bool-cases, comparable_string, ◌==◌,
}
use the_dudes_daemon.Snapshot.{WireRecord}
use the_dudes_daemon.Retained.{ItemRetido}
use the_dudes_daemon.Sealing.{
  Frame, ItemNoFio, Envio, truthy, cifrar, cifrar_imagens, with_images, selar, registro,
  sealed_record, with_key, remontado, com_conteudo, registro_do_frame, juntar, paired, para_fio,
  non_empty,
}

-- An optional text that is there is encrypted.
abbrev pub SealedIf : (String → Bool) → Option String → Type 0
SealedIf is_e2ee none = Unit {0}
SealedIf is_e2ee (some c) = is_e2ee c ≡ true

abbrev SealedPair : (String → Bool) → Option (String × Option (List String)) → Type 0
SealedPair is_e2ee none = Unit {0}
SealedPair is_e2ee (some (c, images)) = is_e2ee c ≡ true

abbrev SealedRecord : (String → Bool) → Option WireRecord → Type 0
SealedRecord is_e2ee none = Unit {0}
SealedRecord is_e2ee (some r) = is_e2ee r.content ≡ true

SealedIf-if :
    (is_e2ee : String → Bool) (b : Bool) (o p : Option String)
    → SealedIf is_e2ee o
    → SealedIf is_e2ee p
    → SealedIf is_e2ee (if b then o else p)
SealedIf-if is_e2ee true o p h k = h
SealedIf-if is_e2ee false o p h k = k

truthy-SealedIf :
    (is_e2ee : String → Bool) (o : Option String) → SealedIf is_e2ee o → SealedIf is_e2ee (truthy o)
truthy-SealedIf is_e2ee none h = tt
truthy-SealedIf is_e2ee (some c) h = SealedIf-if is_e2ee (c == "") none (some c) tt h

SealedPair-if :
    (is_e2ee : String → Bool) (b : Bool) (o : Option (String × Option (List String)))
    → SealedPair is_e2ee o
    → SealedPair is_e2ee (if b then o else none)
SealedPair-if is_e2ee true o h = h
SealedPair-if is_e2ee false o h = tt

SealedRecord-if :
    (is_e2ee : String → Bool) (b : Bool) (o p : Option WireRecord)
    → (b ≡ true → SealedRecord is_e2ee o)
    → SealedRecord is_e2ee p
    → SealedRecord is_e2ee (if b then o else p)
SealedRecord-if is_e2ee true o p h k = h refl
SealedRecord-if is_e2ee false o p h k = k

paired-SealedPair :
    (is_e2ee : String → Bool) (c : String) (o : Option (List String))
    → is_e2ee c ≡ true
    → SealedPair is_e2ee (paired c o)
paired-SealedPair is_e2ee c none h = tt
paired-SealedPair is_e2ee c (some bs) h = h

module _ (is_e2ee : String → Bool) (encrypt encrypt_image : String → String → Option String)
    (has_key : String → Bool)
    (seals : (content project : String) → SealedIf is_e2ee (encrypt content project)) where
  cifrar-SealedIf :
      (project content : String)
      → SealedIf is_e2ee (cifrar is_e2ee encrypt encrypt_image has_key project content)
  unfolding cifrar
  cifrar-SealedIf project content = elim (Bool-cases (is_e2ee content)) [
    | inl e ↦ rw e e
    | inr e ↦ rw e (seals content project)
  ]

  with_images-SealedPair :
      (project : String) (images : Option (List String)) (o : Option String)
      → SealedIf is_e2ee o
      → SealedPair is_e2ee (with_images is_e2ee encrypt encrypt_image has_key project images o)
  unfolding with_images
  with_images-SealedPair project images none h = tt
  with_images-SealedPair project none (some c) h = h
  with_images-SealedPair project (some is) (some c) h =
      paired-SealedPair is_e2ee c (cifrar_imagens is_e2ee encrypt encrypt_image has_key project is)
        h

  selar-SealedPair :
      (project : Option String) (content : String) (images : Option (List String))
      → SealedPair is_e2ee (selar is_e2ee encrypt encrypt_image has_key project content images)
  unfolding selar
  selar-SealedPair none content images = tt
  selar-SealedPair (some project) content images =
      SealedPair-if is_e2ee (not (project == "") && has_key project) _ (
        with_images-SealedPair project (non_empty images) _
          (truthy-SealedIf is_e2ee _ (cifrar-SealedIf project content)))

  module _ (from_agent : String → Bool) where
    record-SealedRecord :
        (msg : Frame) (agora : ℕ) (o : Option (String × Option (List String)))
        → SealedPair is_e2ee o
        → SealedRecord is_e2ee
            (sealed_record is_e2ee encrypt encrypt_image has_key from_agent msg agora o)
    unfolding registro
    record-SealedRecord msg agora none h = tt
    record-SealedRecord msg agora (some (c, images)) h = h

    remontado-SealedRecord :
        (msg : Frame) (final : String) (images : Option (List String)) (agora : ℕ)
        → with_key is_e2ee encrypt encrypt_image has_key from_agent msg.project_id ≡ true
        → SealedRecord is_e2ee
            (remontado is_e2ee encrypt encrypt_image has_key from_agent msg final images agora)
    unfolding remontado
    remontado-SealedRecord msg final images agora h =
        subst
          (λ b. SealedRecord is_e2ee (
            if b
            then sealed_record is_e2ee encrypt encrypt_image has_key from_agent msg agora
                (selar is_e2ee encrypt encrypt_image has_key msg.project_id final images)
            else some (
                registro is_e2ee encrypt encrypt_image has_key from_agent msg agora final
                  (non_empty images))))
          (sym h) (record-SealedRecord msg agora _ (selar-SealedPair msg.project_id final images))

    com_conteudo-SealedRecord :
        (blob : Option String) (msg : Frame) (final : String) (images : Option (List String))
        (agora : ℕ)
        → with_key is_e2ee encrypt encrypt_image has_key from_agent msg.project_id ≡ true
        → SealedRecord is_e2ee (
            com_conteudo is_e2ee encrypt encrypt_image has_key from_agent blob msg final images
              agora)
    unfolding com_conteudo registro
    com_conteudo-SealedRecord none msg final images agora h =
        remontado-SealedRecord msg final images agora h
    com_conteudo-SealedRecord (some blob) msg final images agora h =
        SealedRecord-if is_e2ee (not msg.parts && is_e2ee blob) _ _ (λ e. ground (arith, e))
          (remontado-SealedRecord msg final images agora h)

    -- In a project with a key, the content of every record that a frame gives is encrypted, provided
    -- that what `encryptForProject` returns is recognised as encrypted.
    pub registro_do_frame-sealed :
        (msg : Frame) (final : String) (images : Option (List String)) (agora : ℕ) (r : WireRecord)
        → with_key is_e2ee encrypt encrypt_image has_key from_agent msg.project_id ≡ true
        → registro_do_frame is_e2ee encrypt encrypt_image has_key from_agent msg final images agora
          ≡ some r
        → is_e2ee r.content ≡ true
    unfolding registro_do_frame
    registro_do_frame-sealed msg final images agora r h e =
        subst (SealedRecord is_e2ee) e
          (com_conteudo-SealedRecord msg.content msg final images agora h)

  module _ (ack : Option String → String → String) (project : String) where
    -- Each item is sent encrypted or kept.
    abbrev Parted : List ItemRetido → Envio → Type 0
    Parted itens e =
        All (λ it. is_e2ee (ItemNoFio.cipher it) ≡ true) e.enviar
        × (length e.enviar + length e.sem_chave ≡ length itens)

    juntar-Parted :
        (item : ItemRetido) (itens : List ItemRetido) (o : Option String) (e : Envio)
        → SealedIf is_e2ee o
        → Parted itens e
        → Parted (item ∷ itens) (juntar is_e2ee encrypt encrypt_image has_key ack project item o e)
    unfolding juntar
    juntar-Parted item itens none e h p = (p.0, omega (arith, p.1))
    juntar-Parted item itens (some c) e h p = ((h, p.0), omega (arith, p.1))

    -- Provided that what `encryptForProject` returns is recognised as encrypted, every retained item is
    -- either sent with an encrypted text or kept by the caller, and none is lost.
    pub para_fio-sealed :
        (itens : List ItemRetido)
        → let e = para_fio is_e2ee encrypt encrypt_image has_key ack project itens in
          All (λ it. is_e2ee (ItemNoFio.cipher it) ≡ true) e.enviar
          × (length e.enviar + length e.sem_chave ≡ length itens)
    unfolding para_fio
    para_fio-sealed [] = (tt, refl)
    para_fio-sealed (item ∷ itens) =
        juntar-Parted item itens _
          (para_fio is_e2ee encrypt encrypt_image has_key ack project itens)
          (truthy-SealedIf is_e2ee _ (cifrar-SealedIf project item.content)) (para_fio-sealed itens)
