-- ===== src/Dedup/Refine.antt =====
-- The deduper against its contract: a record of all that was ever accepted, of which the last
-- `max_seen` count.
use Prim.Native.String.{String}
use the_dudes_daemon.Base.{
  ℕ, ◌≡◌, inl, inr, ◌∙◌, ap, sym, subst, refl, Bool, true, false, Option, none, some, List, [], ◌∷◌,
  ◌++◌, arith, leb, length, length-append, if◌then◌else◌, contains, keep_last, keep_last_more,
  keep_last_all, comparable_string, ◌==◌, Bool-cases,
}
use the_dudes_daemon.Dedup.{Deduper, create, is_seen, accept, accept_all, snapshot}
use the_dudes_daemon.Dedup.Invariant.{IsValid, holding, accept_lem, accept-IsValid, create-IsValid}

-- The contract: an id is refused exactly when it is one of the last `most` that were accepted.
abbrev pub promised : ℕ → Option String → List String → List String × Bool
promised most none history = (history, true)
promised most (some id) history =
    if id == ""
    then (history, true)
    else if contains id (keep_last most history)
    then (history, false)
    else (history ++ id ∷ [], true)

pub promised_answers : ℕ → List (Option String) → List String → List String × List Bool
promised_answers most [] history = (history, [])
promised_answers most (id ∷ ids) history =
    let (history', answer) = promised most id history in
    let (final, answers) = promised_answers most ids history' in (final, answer ∷ answers)

-- What the deduper answers to a sequence of deliveries.
pub answers : List (Option String) → Deduper → List Bool
answers [] d = []
answers (id ∷ ids) d = (accept id d).1 ∷ answers ids (accept id d).0

keep_last-keep_last :
    (most : ℕ) (xs : List String) (k : String)
    → keep_last most (keep_last most xs ++ k ∷ []) ≡ keep_last most (xs ++ k ∷ [])
keep_last-keep_last most [] k =
    ap (λ ys. keep_last most (ys ++ k ∷ [])) (keep_last_all most [] (omega arith))
keep_last-keep_last most (x ∷ xs) k = elim (Bool-cases (leb most (length xs))) [
  | inl many ↦
      ap (λ ys. keep_last most (ys ++ k ∷ [])) (keep_last_more most x xs (ground arith))
      ∙ keep_last-keep_last most xs k
      ∙ sym (keep_last_more most x (xs ++ k ∷ []) (ground (arith, length-append xs (k ∷ []))))
  | inr few ↦ ap (λ ys. keep_last most (ys ++ k ∷ [])) (keep_last_all most (x ∷ xs) (ground arith))
]

-- The deduper holds the last `most` ids of the history.
record Refines (most : ℕ) (d : Deduper) (history : List String) : Type 0 where
  pub valid : IsValid d
  pub held : d ≡ holding most (keep_last most history)

-- The answer and the state after a delivery, of a deduper that holds the end of the history.
accept-holding :
    (most : ℕ) (history : List String) (id : Option String)
    → let d = holding most (keep_last most history) in
      IsValid d
      → accept id d
        ≡ (holding most (keep_last most (promised most id history).0), (promised most id history).1)
unfolding is_seen
accept-holding most history none v = accept_lem (holding most (keep_last most history)) none v
accept-holding most history (some id) v =
    let same = accept_lem (holding most (keep_last most history)) (some id) v in
    elim (Bool-cases (id == "")) [
      | inl empty ↦ rw empty (same ∙ rw empty refl)
      | inr named ↦ elim (Bool-cases (contains id (keep_last most history))) [
        | inl known ↦ rw (named, known) (same ∙ rw (named, known) refl)
        | inr new ↦
            rw (named, new) (same ∙ rw (named, new, keep_last-keep_last most history id) refl)
      ]
    ]

accept-Refines :
    (most : ℕ) (d : Deduper) (history : List String) (id : Option String)
    → Refines most d history
    → ((accept id d).1 ≡ (promised most id history).1)
      × Refines most (accept id d).0 (promised most id history).0
accept-Refines most d history id r =
    let same =
      ap (accept id) r.held ∙ accept-holding most history id (subst IsValid r.held r.valid) in
    (
      ap (λ (x : Deduper × Bool). x.1) same,
      record { valid = accept-IsValid d id r.valid; held = ap (λ (x : Deduper × Bool). x.0) same },
    )

run-Refines :
    (most : ℕ) (ids : List (Option String)) (d : Deduper) (history : List String)
    → Refines most d history
    → (answers ids d ≡ (promised_answers most ids history).1)
      × Refines most (accept_all ids d) (promised_answers most ids history).0
unfolding accept_all promised_answers answers
run-Refines most [] d history r = (refl, r)
run-Refines most (id ∷ ids) d history r =
    let (answer, r') = accept-Refines most d history id r in
    let (later, final) = run-Refines most ids (accept id d).0 (promised most id history).0 r' in
    (rw (answer, later) refl, final)

-- A new deduper answers every sequence of deliveries as its contract does, which remembers all ids that
-- were ever accepted and refuses one of the last `most`; and what it hands over for the next
-- process is the last `most` of them.
pub answers-create :
    (most : ℕ) (ids : List (Option String))
    → (answers ids (create most) ≡ (promised_answers most ids []).1)
      × (snapshot (accept_all ids (create most)) ≡ keep_last most (promised_answers most ids []).0)
unfolding snapshot create
answers-create most ids =
    let (same, r) = run-Refines most ids (create most) [] (record {
      valid = create-IsValid most;
      held = ap (holding most) (sym (keep_last_all most [] (omega arith)));
    }) in
    (same, ap (λ (d : Deduper). d.order) r.held)
