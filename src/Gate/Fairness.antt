-- ===== src/Gate/Fairness.antt =====
-- What one release does: whom it serves, and that a second one does nothing.
use the_dudes_daemon.Base.{
  ℕ, suc, ◌≤◌, ◌≡◌, ◌∙◌, inl, inr, refl, sym, true, false, some, none, List, [], ◌∷◌, ◌++◌, arith,
  ltb, le→leb, Option-cases, Bool-cases, ap,
}
use the_dudes_daemon.Gate.{
  TurnGatePool, main, bg, Waiter, Slot, Gate, conceder, new_slot, proximo_from, find, free,
  release_slot, release, count_forced, timeout,
}
use the_dudes_daemon.Gate.Invariant.{IsValid, returned, ativos-pos, is_pool_refl, find-id}

abbrev closed : Slot → Slot
closed s = record s { liberado = true }

find-free :
    (id j : ℕ) (ss : List Slot) (s : Slot)
    → find id ss ≡ some s
    → j ≡ id
    → find id (free j ss) ≡ some (closed s)
unfolding find free
find-free id j [] s h e = cc
find-free id j (t ∷ ss) s h e = ground (arith, find-free id j ss s)

find-append :
    (id : ℕ) (ss ts : List Slot) (s : Slot) → find id ss ≡ some s → find id (ss ++ ts) ≡ some s
unfolding find
find-append id [] ts s h = cc
find-append id (t ∷ ss) ts s h = ground (arith, find-append id ss ts s)

-- New grants do not hide a slot.
find-proximo_from :
    (id : ℕ) (p : TurnGatePool) (now : ℕ) (ws : List Waiter) (g : Gate) (s : Slot)
    → find id g.slots ≡ some s
    → find id (proximo_from p now ws g).slots ≡ some s
unfolding proximo_from conceder
find-proximo_from id p now [] g s h = h
find-proximo_from id p now (w ∷ ws) g s h =
    let later =
      find-proximo_from id p now ws (conceder true p w now g) s
        (find-append id g.slots (new_slot p w now ∷ []) s h) in
    elim (Bool-cases (ltb (g.pools p).ativos (g.pools p).max)) [
      | inl e ↦ rw e later
      | inr e ↦ rw e h
    ]

find-release_slot :
    (id now : ℕ) (g : Gate) (s : Slot)
    → find id g.slots ≡ some s
    → find id (release_slot s now g).slots ≡ some (closed s)
unfolding release_slot
find-release_slot id now g s h =
    let freed : find id (free s.id g.slots) ≡ some (closed s) =
      find-free id s.id g.slots s h (find-id id g.slots s h) in
    let g' = returned s g in
    find-proximo_from id s.pool now (g'.pools s.pool).fila g' (closed s) freed

release-none : (id now : ℕ) (g : Gate) → find id g.slots ≡ none → release id now g ≡ g
unfolding release
release-none id now g e = rw (e, release)

release-open :
    (id now : ℕ) (g : Gate) (s : Slot)
    → find id g.slots ≡ some s
    → s.liberado ≡ false
    → release id now g ≡ release_slot s now g
unfolding release
release-open id now g s e f = rw (e, release, f)

release-closed :
    (id now : ℕ) (g : Gate) (s : Slot)
    → find id g.slots ≡ some s
    → s.liberado ≡ true
    → release id now g ≡ g
unfolding release
release-closed id now g s e t = rw (e, release, t)

-- `release` is idempotent: whatever the first call did, calling it again for the same slot, at any
-- later time, changes nothing in the gate.
pub release-release :
    (id now later : ℕ) (g : Gate) → release id later (release id now g) ≡ release id now g
release-release id now later g = elim (Option-cases (find id g.slots)) [
  | inl e ↦ rw (release-none id now g e) (release-none id later g e)
  | inr (s, e) ↦ elim (Bool-cases s.liberado) [
    | inl t ↦ rw (release-closed id now g s e t) (release-closed id later g s e t)
    | inr f ↦ rw (release-open id now g s e f) (
        release-closed id later (release_slot s now g) (closed s) (find-release_slot id now g s e)
          refl)
  ]
]

timeout-open :
    (id now : ℕ) (g : Gate) (s : Slot)
    → find id g.slots ≡ some s
    → s.liberado ≡ false
    → s.guarda ≤ now
    → timeout id now g ≡ release_slot s now (count_forced s.pool g)
unfolding timeout
timeout-open id now g s e f due = rw (e, timeout, f, le→leb _ _ due)

timeout-closed :
    (id now : ℕ) (g : Gate) (s : Slot)
    → find id g.slots ≡ some s
    → s.liberado ≡ true
    → timeout id now g ≡ g
unfolding timeout
timeout-closed id now g s e t = rw (e, timeout, t)

-- A turn that ends after the valve has already freed its slot does not free a second one: once the
-- timer of a slot has fired, its `release` changes nothing.
pub release-timeout :
    (id now later : ℕ) (g : Gate) (s : Slot)
    → find id g.slots ≡ some s
    → s.guarda ≤ now
    → release id later (timeout id now g) ≡ timeout id now g
unfolding count_forced
release-timeout id now later g s e due = elim (Bool-cases s.liberado) [
  | inl t ↦ rw (timeout-closed id now g s e t) (release-closed id later g s e t)
  | inr f ↦ rw (timeout-open id now g s e f due) (
      release-closed id later (release_slot s now (count_forced s.pool g)) (closed s)
        (find-release_slot id now (count_forced s.pool g) s e) refl)
]

-- `proximo` with one slot free serves the head of the queue and stops.
proximo_from-one :
    (p : TurnGatePool) (now : ℕ) (w : Waiter) (us ws : List Waiter) (g : Gate)
    → suc (g.pools p).ativos ≡ (g.pools p).max
    → us ≡ w ∷ ws
    → let h = proximo_from p now us g in
      (h.slots ≡ g.slots ++ new_slot p w now ∷ [])
      × ((h.pools p).fila ≡ ws)
      × ((h.pools p).ativos ≡ (g.pools p).max)
unfolding proximo_from conceder
proximo_from-one p now w [] ws g e q = cc
proximo_from-one main now w (u ∷ []) ws g e q = ground arith
proximo_from-one main now w (u ∷ t ∷ us) ws g e q = ground arith
proximo_from-one bg now w (u ∷ []) ws g e q = ground arith
proximo_from-one bg now w (u ∷ t ∷ us) ws g e q = ground arith

-- A release hands the slot to the longest waiter, and to nobody else: with the queue `w ∷ ws`, the
-- slot given back is closed, `w` is granted one, the others wait on in their order, and as many
-- turns are active as before.
pub release-fila :
    (id now : ℕ) (g : Gate) (s : Slot) (w : Waiter) (ws : List Waiter)
    → IsValid s.pool g
    → find id g.slots ≡ some s
    → s.liberado ≡ false
    → (g.pools s.pool).fila ≡ w ∷ ws
    → ((release id now g).slots ≡ free id g.slots ++ new_slot s.pool w now ∷ [])
      × (((release id now g).pools s.pool).fila ≡ ws)
      × (((release id now g).pools s.pool).ativos ≡ (g.pools s.pool).ativos)
unfolding release_slot
release-fila id now g s w ws v e f q =
    let g' = returned s g in
    let full : (g.pools s.pool).ativos ≡ (g.pools s.pool).max = ground arith in
    let pos = ativos-pos id s g e f v in
    let free_one : suc (g'.pools s.pool).ativos ≡ (g'.pools s.pool).max =
      rw is_pool_refl (omega arith) in
    let most : (g'.pools s.pool).max ≡ (g.pools s.pool).max = rw is_pool_refl in
    let queue : (g'.pools s.pool).fila ≡ w ∷ ws = rw is_pool_refl q in
    let (slots, fila, ativos) =
      proximo_from-one s.pool now w (g'.pools s.pool).fila ws g' free_one queue in
    let same = find-id id g.slots s e in
    rw (release-open id now g s e f) (
      slots ∙ ap (λ j. free j g.slots ++ new_slot s.pool w now ∷ []) same,
      fila,
      ativos ∙ most ∙ sym full,
    )
