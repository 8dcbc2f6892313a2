-- ===== src/Host/Spool/RoundTrip.antt =====
-- What is written to the spool is read back.
use Prim.Native.String.{String}
use the_dudes_daemon.Base.{
  ◌≡◌, refl, ap, sym, ◌∙◌, subst, inl, inr, true, ◌&&◌, Option, none, some, List, [], ◌∷◌, arith,
  map, All, comparable_string, Bool-cases, Option-cases, bind-some,
}
use the_dudes_daemon.Host.{SpoolItem, SpoolRecord, truthy}
use the_dudes_daemon.Host.Spool.{
  Payload, Vault, Leitura, lido, chave, payload, payload_of, of_text, of_plain, is_v2,
  ler_registro_spool, seal, record_of, tally, seal_items, Sealed,
}

-- A key that encrypts also decrypts, and what is encrypted of a payload is parsed as that payload.
pub record IsLawful (v : Vault) : Type 0 where
  pub opens :
      (project plain blob : String)
      → v.encrypt project plain ≡ some blob
      → v.decrypt project blob ≡ some plain
  pub parses :
      (project blob : String) (p : Payload)
      → v.encrypt project (v.stringify p) ≡ some blob
      → v.parse (v.stringify p) ≡ some p

abbrev item_of : SpoolRecord → Payload → SpoolItem
item_of r p = record {
  message = record {
    content = p.content;
    images = p.images;
    delivery_id = r.delivery_id;
    principal = p.principal;
  };
  enqueued_at = r.enqueued_at;
  pausa = r.pausa;
  retido = r.retido;
}

abbrev of_reading : SpoolRecord → Leitura → Option SpoolItem
of_reading r (lido p) = some (item_of r p)
of_reading r chave = none
of_reading r payload = none

-- The item that a record stands for.
abbrev pub restored : Vault → SpoolRecord → Option SpoolItem
restored v r = of_reading r (ler_registro_spool v r)

-- A record of the agent's, in the format.
abbrev pub IsOf : String → SpoolRecord → Type 0
IsOf agent r = (r.agent_id ≡ agent) × (is_v2 r.blob ≡ true)

module _ (v : Vault) where
  seal-IsOf :
      (agent : String) (o : Option String) (i : SpoolItem) (r : SpoolRecord)
      → seal v agent o i ≡ some r
      → IsOf agent r × (IsLawful v → restored v r ≡ some i)
  unfolding seal ler_registro_spool
  seal-IsOf agent none i r e = cc
  seal-IsOf agent (some project) i r e =
      let (blob, sealed, k) =
        bind-some (v.encrypt project (v.stringify (payload_of i.message))) _ r e in
      elim (Bool-cases (truthy (some project) && is_v2 blob)) [
        | inr other ↦ let no : none ≡ some r = rw other at k in cc
        | inl fit ↦
            let same : some (record_of agent project i blob) ≡ some r = rw fit at k in
            let same' : record_of agent project i blob ≡ r = cc in
            let v2 : is_v2 blob ≡ true = ground arith in
            subst (λ (x : SpoolRecord). IsOf agent x × (IsLawful v → restored v x ≡ some i)) same'
              (
                (refl, v2),
                λ law. ap (of_reading (record_of agent project i blob)) (
                    ap (of_plain v)
                      (law.opens project (v.stringify (payload_of i.message)) blob sealed)
                    ∙ ap of_text (law.parses project blob (payload_of i.message) sealed)),
              )
      ]

  -- The records of an agent's items, where none is lost.
  pub items-restored :
      (agent : String) (o : Option String) (items : List SpoolItem)
      → IsLawful v
      → (seal_items v agent o items).lost ≡ 0
      → map (restored v) (seal_items v agent o items).records ≡ map some items
  unfolding seal_items
  items-restored agent o [] law e = refl
  items-restored agent o (i ∷ items) law e = elim (Option-cases (seal v agent o i)) [
    | inl gone ↦
        let no : (tally i (seal_items v agent o items) none).lost ≡ 0 =
          ap (λ (x : Option SpoolRecord). (tally i (seal_items v agent o items) x).lost) (sym gone)
          ∙ e in
        absurd (omega (arith, no))
    | inr (r, got) ↦
        let rest : (seal_items v agent o items).lost ≡ 0 =
          ap (λ (x : Option SpoolRecord). (tally i (seal_items v agent o items) x).lost) (sym got)
          ∙ e in
        ap
          (λ (x : Option SpoolRecord).
            map (restored v) (tally i (seal_items v agent o items) x).records)
          got
        ∙ ap (λ (x : Option SpoolItem). x ∷ map (restored v) (seal_items v agent o items).records)
            ((seal-IsOf agent o i r got).1 law)
        ∙ ap (λ l. some i ∷ l) (items-restored agent o items law rest)
  ]

  pub items-IsOf :
      (agent : String) (o : Option String) (items : List SpoolItem)
      → All (IsOf agent) (seal_items v agent o items).records
  unfolding seal_items
  items-IsOf agent o [] = tt
  items-IsOf agent o (i ∷ items) =
      tally-IsOf agent i (seal_items v agent o items) (seal v agent o i) (items-IsOf agent o items)
        (λ r got. (seal-IsOf agent o i r got).0)
    where
      tally-IsOf :
          (agent : String) (i : SpoolItem) (rest : Sealed) (o : Option SpoolRecord)
          → All (IsOf agent) rest.records
          → ((r : SpoolRecord) → o ≡ some r → IsOf agent r)
          → All (IsOf agent) (tally i rest o).records
      tally-IsOf agent i rest none h k = h
      tally-IsOf agent i rest (some r) h k = (k r refl, h)
