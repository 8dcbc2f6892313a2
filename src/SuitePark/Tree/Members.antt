-- ===== src/SuitePark/Tree/Members.antt =====
-- Who belongs to a suite.
use the_dudes_daemon.Base.{
  ℕ, ◌≡◌, ◌↔◌, ◌⊎◌, refl, Bool, true, ◌||◌, List, [], ◌∷◌, arith, contains, contains-add,
  comparable_nat, ◌==◌, add, filter, map,
}
use the_dudes_daemon.SuitePark.Command.{is_test_root}
use the_dudes_daemon.SuitePark.Tree.{
  ProcRow, Suite, by_pid, ancestors_of, add_all, sort, insert_sorted, pids_of, joins_by_group,
  members_of, suite_of,
}
use the_dudes_daemon.SuitePark.Tree.Rows.{IsUnder, Joins}

contains-add_all :
    (p : ℕ) (pids set : List ℕ)
    → contains p (add_all pids set) ≡ (contains p pids || contains p set)
contains-add_all p [] set = refl
contains-add_all p (x ∷ pids) set =
    ground (arith, contains-add_all p pids (add x set), contains-add p x set)

contains-insert_sorted :
    (p x : ℕ) (xs : List ℕ) → contains p (insert_sorted x xs) ≡ (x == p || contains p xs)
unfolding insert_sorted
contains-insert_sorted p x [] = refl
contains-insert_sorted p x (y ∷ ys) = ground (arith, contains-insert_sorted p x ys)

pub contains-sort : (p : ℕ) (xs : List ℕ) → contains p (sort xs) ≡ contains p xs
unfolding sort
contains-sort p [] = refl
contains-sort p (x ∷ xs) = ground (arith, contains-insert_sorted p x (sort xs), contains-sort p xs)

pub contains-members_of :
    (kill_group : Bool) (rows : List ProcRow) (own_pid : ℕ) (own_ancestors : List ℕ)
    (root : ProcRow) (below : List ℕ) (p : ℕ)
    → contains p (members_of kill_group rows own_pid own_ancestors root below) ≡ (
        contains p
          (pids_of (filter (joins_by_group kill_group root.pgid own_pid own_ancestors) rows))
        || (contains p below || root.pid == p))
unfolding members_of
contains-members_of kill_group rows own_pid own_ancestors root below p = ground (
  arith,
  contains-add_all p
      (pids_of (filter (joins_by_group kill_group root.pgid own_pid own_ancestors) rows))
      (add_all below (root.pid ∷ [])),
  contains-add_all p below (root.pid ∷ []),
)

-- The processes that the group adds to a suite.
abbrev pub by_group : List ProcRow → ℕ → Bool → ℕ → List ℕ
by_group rows own_pid kill_group pgid =
    pids_of
      (filter (joins_by_group kill_group pgid own_pid (ancestors_of own_pid (by_pid rows))) rows)

abbrev pub test_roots : List ProcRow → List ProcRow
test_roots rows = filter (λ (r : ProcRow). is_test_root r.command) rows

-- The members are the root, the processes below it and those that the group adds.
abbrev pub IsWhole : List ProcRow → ℕ → Suite → Type 0
IsWhole rows own_pid s =
    (p : ℕ)
    → (contains p s.members ≡ true)
      ↔ ((s.root_pid ≡ p) ⊎ (IsUnder rows s.root_pid p ⊎ Joins rows own_pid s.kill_group s.pgid p))

pub suite_root :
    (rows : List ProcRow) (own_pid : ℕ) (root : ProcRow) (below : List ℕ)
    → (suite_of rows own_pid root below).root_pid ≡ root.pid
unfolding suite_of
suite_root rows own_pid root below = refl

-- A suite for each root, with its group.
abbrev pub IsOf : List ProcRow → List Suite → Type 0
IsOf roots suites =
    map {B = ℕ × ℕ} (λ (s : Suite). (s.root_pid, s.pgid)) suites
    ≡ map {B = ℕ × ℕ} (λ (r : ProcRow). (r.pid, r.pgid)) roots
