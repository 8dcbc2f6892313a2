-- ===== src/SuitePark/Ps/Attempts.antt =====
-- A failed sample is no empty process table.
use Prim.Native.String.{String}
use the_dudes_daemon.Base.{
  ℕ, ◌≡◌, ◌≢◌, ◌⊎◌, inl, inr, refl, none, some, List, [], ◌∷◌, arith, Option-cases, Bool-cases,
  ◌||◌, not,
}
use the_dudes_daemon.SuitePark.Tree.{ProcRow}
use the_dudes_daemon.SuitePark.Ps.{
  PsSpawnResult, describe_ps_failure, unless_empty, exited_well, is_blank, or_blank,
  rows_from_ps_attempt, read, unavailable, run_ps_async,
}

unless_empty-ne :
    (rows : List ProcRow) {got : List ProcRow} → unless_empty rows ≡ some got → got ≢ []
unfolding unless_empty
unless_empty-ne [] h = cc
unless_empty-ne (r ∷ rows) h = λ e. cc

module _ (parse : String → List ProcRow) (answer : ℕ → PsSpawnResult) where
  abbrev pub Useless : ℕ → Type 0
  Useless i = rows_from_ps_attempt parse (answer i) ≡ none

  -- The first useful attempt is `i`, and its rows are read.
  abbrev pub ReadsAt : ℕ → List ProcRow → Type 0
  ReadsAt i rows = (rows_from_ps_attempt parse (answer i) ≡ some rows) × (rows ≢ [])

  rows_from-ne :
      (i : ℕ) {rows : List ProcRow} → rows_from_ps_attempt parse (answer i) ≡ some rows → rows ≢ []
  unfolding rows_from_ps_attempt
  rows_from-ne i h =
      elim (Bool-cases (not (exited_well (answer i)) || is_blank (or_blank (answer i).stdout))) [
        | inl e ↦ λ k. grind arith
        | inr e ↦ unless_empty-ne (parse (or_blank (answer i).stdout)) (grind arith)
      ]

  -- The table is read from the first of three attempts that is useful, and it is never empty. Where none
  -- is, the reading fails with the cause of the third failure: no attempt is taken for an empty table.
  pub run_ps_async_lem :
      ((rows : List ProcRow) × (run_ps_async parse answer ≡ read rows)
        × (ReadsAt 0 rows
            ⊎ ((Useless 0 × ReadsAt 1 rows) ⊎ (Useless 0 × Useless 1 × ReadsAt 2 rows))))
      ⊎ (Useless 0
          × Useless 1
          × Useless 2
          × (run_ps_async parse answer ≡ unavailable (describe_ps_failure (answer 2))))
  unfolding run_ps_async
  run_ps_async_lem = elim (Option-cases (rows_from_ps_attempt parse (answer 0))) [
    | inr (rows, e) ↦ inl (rows, rw e refl, inl (e, rows_from-ne 0 e))
    | inl e ↦ elim (Option-cases (rows_from_ps_attempt parse (answer 1))) [
      | inr (rows, k) ↦ inl (rows, rw (e, k) refl, inr (inl (e, (k, rows_from-ne 1 k))))
      | inl k ↦ elim (Option-cases (rows_from_ps_attempt parse (answer 2))) [
        | inr (rows, l) ↦ inl (rows, rw (e, k, l) refl, inr (inr (e, k, (l, rows_from-ne 2 l))))
        | inl l ↦ inr (e, k, l, rw (e, k, l) refl)
      ]
    ]
  ]
