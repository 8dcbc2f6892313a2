-- ===== src/Retained/Agent.antt =====
-- `reter` as the host calls it, for one agent.
use Prim.Native.String.{String}
use the_dudes_daemon.Base.{
  ℕ, ◌+◌, ◌≤◌, ◌≡◌, sym, ap, ◌∙◌, subst, List, some, ◌∷◌, arith, length, lookup, insert,
  lookup-insert, comparable_string,
}
use the_dudes_daemon.Retained.{
  ItemRetido, Estado, Retencao, Lote, cap_por_agente, estado_de, chaves, or_vazio, or_empty,
  expirar, reter, reter_todos, guardar, nada,
}
use the_dudes_daemon.Retained.Lists.{Distinct}
use the_dudes_daemon.Retained.Reter.{chaves_dos, IsSynced, reter_todos-IsSynced}

module _ (digest : String → String) (agent : String) where
  abbrev pub itens : Retencao → List ItemRetido
  itens r = (estado_de agent r).itens

  -- The agent's set of keys is that of its items, which differ by key and are 200 at most.
  pub record IsInStep (r : Retencao) : Type 0 where
    pub same : chaves agent r ≡ chaves_dos digest (itens r)
    pub distinct : Distinct (chaves_dos digest (itens r))
    pub bounded : length (itens r) ≤ cap_por_agente

  abbrev inicio : Retencao → Lote
  inicio r = record {
    itens = itens r;
    chaves = chaves agent r;
    perdidos = 0;
    contagem = nada digest;
  }

  inicio-IsSynced : (r : Retencao) → IsInStep r → IsSynced digest (inicio r)
  inicio-IsSynced r s = record { same = s.same; distinct = s.distinct; bounded = s.bounded }

  lookup_here :
      {V : Type 0} (v : V) (m : List (String × V)) → lookup agent (insert agent v m) ≡ some v
  lookup_here v m =
      ground (arith, lookup-insert agent agent v m, comparable_string.agree_iff agent agent)

  estado-guardar :
      (l : Lote) (r : Retencao)
      → (estado_de agent (guardar digest agent l r)
          ≡ record { itens = l.itens; descartados = (estado_de agent r).descartados + l.perdidos })
        × (chaves agent (guardar digest agent l r) ≡ l.chaves)
  unfolding guardar
  estado-guardar l r = (
    ap or_vazio (
        lookup_here
          (record { itens = l.itens; descartados = (estado_de agent r).descartados + l.perdidos })
          r.por_agente),
    ap or_empty (lookup_here l.chaves r.chaves_de),
  )

  guardar-IsInStep :
      (l : Lote) (r : Retencao) → IsSynced digest l → IsInStep (guardar digest agent l r)
  guardar-IsInStep l r s =
      let (e, k) = estado-guardar l r in
      let i : itens (guardar digest agent l r) ≡ l.itens = ap (λ e. Estado.itens e) e in
      record {
        same = k ∙ s.same ∙ ap (chaves_dos digest) (sym i);
        distinct = subst (λ is. Distinct (chaves_dos digest is)) (sym i) s.distinct;
        bounded = subst (λ is. length is ≤ cap_por_agente) (sym i) s.bounded;
      }

  -- Nothing that comes is lost in silence: where the agent is in step after the expiry, it is in
  -- step after `reter`; each item that comes counts as retained or as a repetition, the items that
  -- leave beyond the ceiling count as dropped, and the agent's own count of these grows alike.
  pub reter-IsInStep :
      (ttl now : ℕ) (i : ItemRetido) (is : List ItemRetido) (r : Retencao)
      → IsInStep (expirar digest ttl now r).0
      → let r' = (expirar digest ttl now r).0 in
        let (t, c) = reter digest ttl now agent (i ∷ is) r in
        IsInStep t
        × (c.retidos + c.duplicados ≡ length (i ∷ is))
        × (length (itens t) + c.descartados ≡ length (itens r') + c.retidos)
        × ((estado_de agent t).descartados ≡ (estado_de agent r').descartados + c.descartados)
  unfolding reter
  reter-IsInStep ttl now i is r s =
      let r' = (expirar digest ttl now r).0 in
      let l = reter_todos digest (i ∷ is) (inicio r') in
      let (synced, counts) =
        reter_todos-IsSynced digest (i ∷ is) (inicio r') (inicio-IsSynced r' s) in
      let (e, k) = estado-guardar l r' in
      let n : length (itens (guardar digest agent l r')) ≡ length l.itens =
        ap (λ e. length (Estado.itens e)) e in
      let d = ap (λ e. Estado.descartados e) e in
      (
        guardar-IsInStep l r' synced,
        omega (arith, counts.0),
        omega (arith, counts.1, n),
        omega (arith, counts.2, d),
      )
