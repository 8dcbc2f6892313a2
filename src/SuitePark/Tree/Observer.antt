-- ===== src/SuitePark/Tree/Observer.antt =====
-- The process that looks, as a member of what it finds.
use the_dudes_daemon.Base.{
  ℕ, ◌≡◌, ◌↔◌, ◌⊎◌, inl, inr, refl, Bool, true, false, not, ◌&&◌, ◌||◌, Option, some, List, [], ◌∷◌,
  arith, contains, Bool-cases, comparable_nat, ◌==◌, nat_beq_iff, filter, any, All, lookup, ltb,
  bind-some, ◌∙◌, ap, subst, sym,
}
use the_dudes_daemon.SuitePark.Tree.{
  ProcRow, Suite, Children, by_pid, children_of, ancestors_of, descendants_of, pids_of, pgid_of,
  may_kill_group, joins_by_group, members_of, suite_of, collect_from, collect_suites,
}
use the_dudes_daemon.SuitePark.Tree.Walk.{Below, descendants_of_iff}
use the_dudes_daemon.SuitePark.Tree.Members.{
  contains-sort, contains-members_of, suite_root, test_roots,
}

-- A row of the process `pid` that is in another group than `pgid`.
abbrev pub strays : ℕ → ℕ → ProcRow → Bool
strays pid pgid r = r.pid == pid && not (r.pgid == pgid)

joins_by_group-own :
    (root own : ProcRow) (own_ancestors : List ℕ) (rows : List ProcRow)
    → any (strays own.pid own.pgid) rows ≡ false
    → contains own.pid (
        pids_of (
          filter
            (joins_by_group
              (may_kill_group root.pgid (some own.pgid))
              root.pgid
              own.pid
              own_ancestors)
            rows))
      ≡ false
unfolding joins_by_group may_kill_group
joins_by_group-own root own own_ancestors [] h = refl
joins_by_group-own root own own_ancestors (r ∷ rows) h =
    let ih = joins_by_group-own root own own_ancestors rows in
    elim (Bool-cases (ltb 1 root.pgid && not (root.pgid == own.pgid))) [
      | inl e ↦ grind (arith, ih)
      | inr e ↦ grind (arith, ih)
    ]

suite_of-own :
    (rows : List ProcRow) (own root : ProcRow) (below : List ℕ)
    → lookup own.pid (by_pid rows) ≡ some own
    → any (strays own.pid own.pgid) rows ≡ false
    → contains own.pid (suite_of rows own.pid root below).members
      ≡ (contains own.pid below || root.pid == own.pid)
unfolding suite_of
suite_of-own rows own root below found same =
    let table = by_pid rows in
    let a = ancestors_of own.pid table in
    let g = may_kill_group root.pgid (pgid_of (lookup own.pid table)) in
    let apart =
      subst
        (λ (o : Option ProcRow).
          contains own.pid (
            pids_of (
              filter (joins_by_group (may_kill_group root.pgid (pgid_of o)) root.pgid own.pid a)
                rows))
          ≡ false)
        (sym found) (joins_by_group-own root own a rows same) in
    contains-sort own.pid (members_of g rows own.pid a root below)
    ∙ contains-members_of g rows own.pid a root below own.pid
    ∙ ap (λ b. b || (contains own.pid below || root.pid == own.pid)) apart

-- The process that looks is a member only as the root or as a process below it.
abbrev pub HoldsOwn : Children → ℕ → Suite → Type 0
HoldsOwn children own_pid s =
    (contains own_pid s.members ≡ true)
    ↔ ((s.root_pid ≡ own_pid) ⊎ Below children s.root_pid own_pid)

suite_of-HoldsOwn :
    (fuel : ℕ) (rows : List ProcRow) (own root : ProcRow) {below : List ℕ}
    → lookup own.pid (by_pid rows) ≡ some own
    → any (strays own.pid own.pgid) rows ≡ false
    → descendants_of fuel root.pid (children_of rows) ≡ some below
    → HoldsOwn (children_of rows) own.pid (suite_of rows own.pid root below)
suite_of-HoldsOwn fuel rows own root {below} found same e =
    let below_iff = descendants_of_iff fuel root.pid (children_of rows) e own.pid in
    let holds = suite_of-own rows own root below found same in
    let (same_pid, self) = nat_beq_iff root.pid own.pid in
    rw (suite_root rows own.pid root below) (
      λ h. elim (Bool-cases (root.pid == own.pid)) [
        | inl k ↦ inl (same_pid k)
        | inr k ↦ inr (below_iff.0 (ground (arith, holds)))
      ],
      λ b.
          holds ∙ elim b [ inl k ↦ ground (arith, self k) | inr k ↦ ground (arith, below_iff.1 k) ],
    )

collect_from-HoldsOwn :
    (fuel : ℕ) (rows : List ProcRow) (own : ProcRow) (roots : List ProcRow) {suites : List Suite}
    → lookup own.pid (by_pid rows) ≡ some own
    → any (strays own.pid own.pgid) rows ≡ false
    → collect_from fuel rows own.pid (children_of rows) roots ≡ some suites
    → All (HoldsOwn (children_of rows) own.pid) suites
unfolding collect_from
collect_from-HoldsOwn fuel rows own [] {suites} found same e =
    subst (All (HoldsOwn (children_of rows) own.pid)) {x = []} (cc) tt
collect_from-HoldsOwn fuel rows own (root ∷ roots) {suites} found same e =
    let (below, k, later) =
      bind-some (descendants_of fuel root.pid (children_of rows)) _ suites e in
    let (rest, l, last) =
      bind-some (collect_from fuel rows own.pid (children_of rows) roots) _ suites later in
    subst (All (HoldsOwn (children_of rows) own.pid)) {x = suite_of rows own.pid root below ∷ rest}
      (cc)
      (
        suite_of-HoldsOwn fuel rows own root found same k,
        collect_from-HoldsOwn fuel rows own roots found same l,
      )

-- The process that looks, when it has a row and no row of its pid is in another group, is a member of
-- a suite exactly when it is the suite's root or below it: to share the root's group, or to be the
-- root's parent, makes it none.
pub collect_suites-HoldsOwn :
    (fuel : ℕ) (rows : List ProcRow) (own : ProcRow) {suites : List Suite}
    → lookup own.pid (by_pid rows) ≡ some own
    → any (strays own.pid own.pgid) rows ≡ false
    → collect_suites fuel rows own.pid ≡ some suites
    → All (HoldsOwn (children_of rows) own.pid) suites
unfolding collect_suites
collect_suites-HoldsOwn fuel rows own found same e =
    collect_from-HoldsOwn fuel rows own (test_roots rows) found same e
