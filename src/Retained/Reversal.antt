-- ===== src/Retained/Reversal.antt =====
-- The order of what an agent's new runner refuses.
use Prim.Native.String.{String}
use the_dudes_daemon.Base.{
  ℕ, ◌≡◌, refl, sym, ap, ◌∙◌, Bool, true, not, some, List, [], ◌∷◌, ◌++◌, arith, inl, inr,
  Option-cases, Bool-cases, filter, lookup, insert, lookup-insert, comparable_string,
}
use the_dudes_daemon.Retained.{
  ItemRetido, Estado, Retencao, estado_de, or_vazio, expirar, tomar, tomar_estado, devolver,
}
use the_dudes_daemon.Retained.Spawn.{Entrada, pronta, entregar, entregar_fila_retida}

-- `xs.reverse()`
abbrev pub reverse : List ItemRetido → List ItemRetido
reverse [] = []
reverse (x ∷ xs) = reverse xs ++ x ∷ []

++-assoc : (xs ys zs : List ItemRetido) → (xs ++ ys) ++ zs ≡ xs ++ (ys ++ zs)
++-assoc [] ys zs = refl
++-assoc (x ∷ xs) ys zs = ap (λ l. x ∷ l) (++-assoc xs ys zs)

++-nil : (xs : List ItemRetido) → xs ++ [] ≡ xs
++-nil [] = refl
++-nil (x ∷ xs) = ap (λ l. x ∷ l) (++-nil xs)

module _ (digest : String → String) (falha : ItemRetido → Bool) (agent : String) where
  abbrev pub guardados : Retencao → List ItemRetido
  guardados r = (estado_de agent r).itens

  lookup_here : (e : Estado) (m : List (String × Estado)) → lookup agent (insert agent e m) ≡ some e
  lookup_here e m =
      ground (arith, lookup-insert agent agent e m, comparable_string.agree_iff agent agent)

  guardados-devolver :
      (i : ItemRetido) (r : Retencao)
      → guardados (devolver digest agent (i ∷ []) r) ≡ i ∷ guardados r
  unfolding devolver
  guardados-devolver i r =
      let e : Estado = record (estado_de agent r) { itens = i ∷ guardados r } in
      ap (λ o. (or_vazio o).itens) (lookup_here e r.por_agente)

  abbrev Entregue : List ItemRetido → Retencao → Retencao × List ItemRetido → Type 0
  Entregue is r (r', entregues) =
      (guardados r' ≡ reverse (filter falha is) ++ guardados r)
      × (entregues ≡ filter (λ i. not (falha i)) is)

  entregar-Entregue :
      (is : List ItemRetido) (r : Retencao) → Entregue is r (entregar digest falha agent is r)
  unfolding entregar
  entregar-Entregue [] r = (refl, refl)
  entregar-Entregue (i ∷ is) r = elim (Bool-cases (falha i)) [
    | inl refused ↦
        let r₁ = devolver digest agent (i ∷ []) r in
        let ih = entregar-Entregue is r₁ in
        let back =
          ap (λ l. reverse (filter falha is) ++ l) (guardados-devolver i r)
          ∙ sym (++-assoc (reverse (filter falha is)) (i ∷ []) (guardados r)) in
        rw refused (ih.0 ∙ back, ih.1)
    | inr taken ↦ let ih = entregar-Entregue is r in rw taken (ih.0, ap (λ l. i ∷ l) ih.1)
  ]

  tomar-guardados :
      (r : Retencao)
      → (guardados (tomar digest agent r).0 ≡ []) × ((tomar digest agent r).1 ≡ guardados r)
  unfolding tomar tomar_estado
  tomar-guardados r = elim (Option-cases (lookup agent r.por_agente)) [
    | inl e ↦ rw (e) (ground (arith, e))
    | inr (s, e) ↦ rw (e) (
      ap (λ o. (or_vazio o).itens) (lookup_here (record s { itens = [] }) r.por_agente),
      sym (ap (λ o. (or_vazio o).itens) e),
    )
  ]

  -- A handler that reaches the loop leaves the items that `pushUserMessage` refused in the REVERSE
  -- of the order in which they were held, and gives the runner the others in order: none is lost.
  pub entregar_fila_retida-reverse :
      (ttl now : ℕ) (e : Entrada) (r : Retencao)
      → pronta e ≡ true
      → let held = guardados (expirar digest ttl now r).0 in
        let (r', entregues) = entregar_fila_retida digest falha agent ttl now (some e) r in
        (guardados r' ≡ reverse (filter falha held))
        × (entregues ≡ filter (λ i. not (falha i)) held)
  unfolding entregar_fila_retida
  entregar_fila_retida-reverse ttl now e r h =
      let r₀ = (expirar digest ttl now r).0 in
      let (left, itens) = tomar digest agent r₀ in
      let t = tomar-guardados r₀ in
      let d = entregar-Entregue itens left in
      let none_left =
        ap (λ l. reverse (filter falha itens) ++ l) t.0 ∙ ++-nil (reverse (filter falha itens)) in
      rw h (
        d.0 ∙ none_left ∙ ap (λ l. reverse (filter falha l)) t.1,
        d.1 ∙ ap (λ l. filter (λ i. not (falha i)) l) t.1,
      )
