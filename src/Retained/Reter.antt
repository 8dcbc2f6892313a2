-- ===== src/Retained/Reter.antt =====
-- The loop of `reter` over the items that come.
use Prim.Native.String.{String}
use the_dudes_daemon.Base.{
  ℕ, suc, ◌+◌, ◌-◌, ◌≤◌, ◌≡◌, inl, inr, refl, sym, ap, ◌∙◌, subst, true, false, List, [], ◌∷◌, ◌++◌,
  map, arith, ltb, length, length-append, length-drop, Bool-cases, contains, remove, drop,
  comparable_string,
}
use the_dudes_daemon.Retained.Lists.{
  Distinct, remove_head, Distinct-concat, Distinct-drop, map-concat, map-drop,
}
use the_dudes_daemon.Retained.{
  ItemRetido, Lote, cap_por_agente, chave_item, podar, reter_um, reter_todos,
}

module _ (digest : String → String) where
  abbrev pub chaves_dos : List ItemRetido → List String
  chaves_dos = map (chave_item digest)

  -- The set of keys is that of the items, no item stands twice, and the ceiling holds.
  pub record IsSynced (l : Lote) : Type 0 where
    pub same : l.chaves ≡ chaves_dos l.itens
    pub distinct : Distinct (chaves_dos l.itens)
    pub bounded : length l.itens ≤ cap_por_agente

  -- With `n` of the oldest items gone, and counted.
  abbrev sem_os_velhos : ℕ → List ItemRetido → Lote → Lote
  sem_os_velhos n itens l = record {
    itens = drop n itens;
    chaves = chaves_dos (drop n itens);
    perdidos = l.perdidos + n;
    contagem = record l.contagem { descartados = l.contagem.descartados + n };
  }

  podar_lem :
      (itens : List ItemRetido) (l : Lote)
      → l.chaves ≡ chaves_dos itens
      → Distinct (chaves_dos itens)
      → podar digest itens l ≡ sem_os_velhos (length itens - cap_por_agente) itens l
  unfolding podar
  podar_lem [] l e d = ground arith
  podar_lem (v ∷ itens) l e d = elim (Bool-cases (ltb cap_por_agente (suc (length itens)))) [
    | inl more ↦
        let shorter : Lote = record l {
          chaves = remove (chave_item digest v) l.chaves;
          perdidos = l.perdidos + 1;
          contagem = record l.contagem { descartados = l.contagem.descartados + 1 };
        } in
        let less =
          ap (remove (chave_item digest v)) e
          ∙ remove_head (chave_item digest v) (chaves_dos itens) d.0 in
        let ih = podar_lem itens shorter less d.1 in
        let n : suc (length itens) - cap_por_agente ≡ suc (length itens - cap_por_agente) =
          ground arith in
        rw (more, n) (ground (arith, ih))
    | inr all ↦
        let n : suc (length itens) - cap_por_agente ≡ 0 = ground arith in rw (all, n) (ground arith)
  ]

  abbrev repetido : Lote → Lote
  repetido l = record l { contagem = record l.contagem { duplicados = l.contagem.duplicados + 1 } }

  -- The loop variables that `podar` gets for a new item.
  abbrev aceito : ItemRetido → Lote → Lote
  aceito i l = record l {
    chaves = l.chaves ++ chave_item digest i ∷ [];
    contagem = record l.contagem { retidos = l.contagem.retidos + 1 };
  }

  abbrev excesso : ItemRetido → Lote → ℕ
  excesso i l = length (l.itens ++ i ∷ []) - cap_por_agente

  reter_um-twice :
      (i : ItemRetido) (l : Lote)
      → contains (chave_item digest i) l.chaves ≡ true
      → reter_um digest i l ≡ repetido l
  unfolding reter_um
  reter_um-twice i l h = rw h

  reter_um-new :
      (i : ItemRetido) (l : Lote)
      → IsSynced l
      → contains (chave_item digest i) l.chaves ≡ false
      → (reter_um digest i l ≡ sem_os_velhos (excesso i l) (l.itens ++ i ∷ []) (aceito i l))
        × Distinct (chaves_dos (l.itens ++ i ∷ []))
  unfolding reter_um
  reter_um-new i l s h =
      let itens = l.itens ++ i ∷ [] in
      let k = chave_item digest i in
      let added : chaves_dos itens ≡ chaves_dos l.itens ++ k ∷ [] =
        map-concat (chave_item digest) l.itens i in
      let fresh : contains k (chaves_dos l.itens) ≡ false =
        subst (λ ks. contains k ks ≡ false) s.same h in
      let d : Distinct (chaves_dos itens) =
        subst Distinct (sym added) (Distinct-concat (chaves_dos l.itens) k s.distinct fresh) in
      let e : l.chaves ++ k ∷ [] ≡ chaves_dos itens = ap (λ ks. ks ++ k ∷ []) s.same ∙ sym added in
      (rw h (podar_lem itens (aceito i l) e d), d)

  IsSynced-sem_os_velhos :
      (itens : List ItemRetido) (l : Lote)
      → Distinct (chaves_dos itens)
      → IsSynced (sem_os_velhos (length itens - cap_por_agente) itens l)
  IsSynced-sem_os_velhos itens l d =
      let n = length itens - cap_por_agente in
      let e = map-drop (chave_item digest) n itens in
      record {
        same = refl;
        distinct = subst Distinct (sym e) (Distinct-drop n (chaves_dos itens) d);
        bounded = omega (arith, length-drop n itens);
      }

  reter_um-IsSynced : (i : ItemRetido) (l : Lote) → IsSynced l → IsSynced (reter_um digest i l)
  reter_um-IsSynced i l s = elim (Bool-cases (contains (chave_item digest i) l.chaves)) [
    | inl twice ↦
        subst IsSynced (sym (reter_um-twice i l twice))
          (record { same = s.same; distinct = s.distinct; bounded = s.bounded })
    | inr new ↦
        let (e, d) = reter_um-new i l s new in
        subst IsSynced (sym e) (IsSynced-sem_os_velhos (l.itens ++ i ∷ []) (aceito i l) d)
  ]

  -- From `l` to `l'`, `n` items came: each was taken or counted as a repetition, and what the queue
  -- no longer holds was counted as dropped.
  abbrev pub Counts : ℕ → Lote → Lote → Type 0
  Counts n l l' =
      (l'.contagem.retidos + l'.contagem.duplicados
        ≡ l.contagem.retidos + l.contagem.duplicados + n)
      × (length l'.itens + l'.contagem.descartados + l.contagem.retidos
          ≡ length l.itens + l.contagem.descartados + l'.contagem.retidos)
      × (l'.perdidos + l.contagem.descartados ≡ l.perdidos + l'.contagem.descartados)

  reter_um-Counts : (i : ItemRetido) (l : Lote) → IsSynced l → Counts 1 l (reter_um digest i l)
  reter_um-Counts i l s = elim (Bool-cases (contains (chave_item digest i) l.chaves)) [
    | inl twice ↦
        subst (Counts 1 l) (sym (reter_um-twice i l twice)) (omega arith, omega arith, omega arith)
    | inr new ↦
        let one = length-append l.itens (i ∷ []) in
        let rest = length-drop (excesso i l) (l.itens ++ i ∷ []) in
        subst (Counts 1 l) (sym (reter_um-new i l s new).0)
          (omega arith, omega (arith, one, rest), omega arith)
  ]

  -- The loop keeps the items distinct by key, the set of keys the items' own, and at most 200 of
  -- them; each item that comes is counted as retained or as a repetition, and the items that the
  -- ceiling pushes out are counted, once for the caller and once for the agent.
  pub reter_todos-IsSynced :
      (is : List ItemRetido) (l : Lote)
      → IsSynced l
      → IsSynced (reter_todos digest is l) × Counts (length is) l (reter_todos digest is l)
  unfolding reter_todos
  reter_todos-IsSynced [] l s = (s, (omega arith, omega arith, omega arith))
  reter_todos-IsSynced (i ∷ is) l s =
      let l' = reter_um digest i l in
      let c = reter_um-Counts i l s in
      let (s', d) = reter_todos-IsSynced is l' (reter_um-IsSynced i l s) in
      (s', (omega (arith, c.0, d.0), omega (arith, c.1, d.1), omega (arith, c.2, d.2)))
