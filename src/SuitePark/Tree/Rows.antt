-- ===== src/SuitePark/Tree/Rows.antt =====
-- What the rows of a table say of children and groups, apart from the maps that are built of them.
use mathlib.Core.List.{append_assoc, append-nil}
use the_dudes_daemon.Base.{
  ℕ, ◌<◌, ◌≡◌, ◌≢◌, ◌↔◌, ◌⊎◌, inl, inr, refl, sym, ◌∙◌, subst, Bool, true, false, not, ◌&&◌, List,
  [], ◌∷◌, ◌++◌, arith, contains, filter, insert, lookup-insert, comparable_nat, nat_beq_iff, ◌==◌,
  if◌then◌else◌, Bool-cases,
}
use the_dudes_daemon.SuitePark.Tree.{
  ProcRow, Children, kids, group_children, children_of, pids_of, by_pid, ancestors_of,
  joins_by_group,
}
use the_dudes_daemon.SuitePark.Tree.Walk.{Below, child, deeper, weigh, Falls}

-- The processes whose row names this one as their parent.
abbrev pub children_in : List ProcRow → ℕ → List ℕ
children_in rows pid = pids_of (filter (λ (r : ProcRow). r.ppid == pid) rows)

-- A child of the root, or a child of a process below it.
pub data IsUnder (rows : List ProcRow) (root : ℕ) : ℕ → Type 0 where
  first : (p : ℕ) → contains p (children_in rows root) ≡ true → IsUnder rows root p
  next :
      (q p : ℕ) → IsUnder rows root q → contains p (children_in rows q) ≡ true → IsUnder rows root p

-- Each process weighs more than its children together.
abbrev pub FallsIn : (ℕ → ℕ) → List ProcRow → Type 0
FallsIn w rows = (p : ℕ) → weigh w (children_in rows p) < w p

kids-insert :
    (m : Children) (k q : ℕ) (pids : List ℕ)
    → kids (insert k pids m) q ≡ (if k == q then pids else kids m q)
unfolding kids
kids-insert m k q pids = rw (lookup-insert k q pids m) (ground arith)

kids-group_children :
    (rows : List ProcRow) (m : Children) (q : ℕ)
    → kids (group_children m rows) q ≡ kids m q ++ children_in rows q
unfolding group_children
kids-group_children [] m q = sym (append-nil (kids m q))
kids-group_children (r ∷ rows) m q =
    kids-group_children rows (insert r.ppid (kids m r.ppid ++ r.pid ∷ []) m) q
    ∙ rw (kids-insert m r.ppid q (kids m r.ppid ++ r.pid ∷ [])) (elim (Bool-cases (r.ppid == q)) [
      | inl e ↦
          let same : r.ppid ≡ q = (nat_beq_iff r.ppid q).0 e in
          rw (e, same) (append_assoc (kids m q) (r.pid ∷ []) (children_in rows q))
      | inr e ↦ rw e refl
    ])

-- The map of children has those of the rows.
pub kids-children_of :
    (rows : List ProcRow) (q : ℕ) → kids (children_of rows) q ≡ children_in rows q
unfolding children_of kids
kids-children_of rows q = kids-group_children rows [] q

pub FallsIn-Falls : (w : ℕ → ℕ) (rows : List ProcRow) → FallsIn w rows → Falls w (children_of rows)
FallsIn-Falls w rows h p =
    subst (λ (l : List ℕ). weigh w l < w p) (sym (kids-children_of rows p)) (h p)

Below-IsUnder :
    (rows : List ProcRow) (root p : ℕ) → Below (children_of rows) root p → IsUnder rows root p
Below-IsUnder rows root _ (child p h) =
    first p (subst (λ (l : List ℕ). contains p l ≡ true) (kids-children_of rows root) h)
Below-IsUnder rows root _ (deeper q p b h) =
    next q p (Below-IsUnder rows root q b)
      (subst (λ (l : List ℕ). contains p l ≡ true) (kids-children_of rows q) h)

IsUnder-Below :
    (rows : List ProcRow) (root p : ℕ) → IsUnder rows root p → Below (children_of rows) root p
IsUnder-Below rows root _ (first p h) =
    child p (subst (λ (l : List ℕ). contains p l ≡ true) (sym (kids-children_of rows root)) h)
IsUnder-Below rows root _ (next q p b h) =
    deeper q p (IsUnder-Below rows root q b)
      (subst (λ (l : List ℕ). contains p l ≡ true) (sym (kids-children_of rows q)) h)

pub Below-IsUnder_iff :
    (rows : List ProcRow) (root p : ℕ) → Below (children_of rows) root p ↔ IsUnder rows root p
Below-IsUnder_iff rows root p = (Below-IsUnder rows root p, IsUnder-Below rows root p)

-- The processes whose row is in the group.
abbrev pub group_in : List ProcRow → ℕ → List ℕ
group_in rows pgid = pids_of (filter (λ (r : ProcRow). r.pgid == pgid) rows)

-- The group adds all its processes where it may be killed whole, and else all but the observer and
-- the processes above it.
abbrev pub Joins : List ProcRow → ℕ → Bool → ℕ → ℕ → Type 0
Joins rows own_pid whole pgid p =
    (contains p (group_in rows pgid) ≡ true)
    × ((whole ≡ true) ⊎ ((p ≢ own_pid) × (contains p (ancestors_of own_pid (by_pid rows)) ≡ false)))

contains-joins :
    (rows : List ProcRow) (pgid own_pid : ℕ) (above : List ℕ) (p : ℕ)
    → contains p (pids_of (filter (joins_by_group false pgid own_pid above) rows))
      ≡ (contains p (group_in rows pgid) && not (p == own_pid) && not (contains p above))
unfolding joins_by_group
contains-joins [] pgid own_pid above p = refl
contains-joins (r ∷ rows) pgid own_pid above p = elim (Bool-cases (r.pid == p)) [
  | inl e ↦
      let same : r.pid ≡ p = (nat_beq_iff r.pid p).0 e in
      ground (arith, same, contains-joins rows pgid own_pid above p)
  | inr e ↦ ground (arith, e, contains-joins rows pgid own_pid above p)
]

pub joins_by_group-Joins :
    (rows : List ProcRow) (own_pid : ℕ) (whole : Bool) (pgid p : ℕ)
    → let above = ancestors_of own_pid (by_pid rows) in
      (contains p (pids_of (filter (joins_by_group whole pgid own_pid above) rows)) ≡ true)
      ↔ Joins rows own_pid whole pgid p
unfolding joins_by_group
joins_by_group-Joins rows own_pid true pgid p = (λ h. (h, inl refl), λ h. h.0)
joins_by_group-Joins rows own_pid false pgid p =
    let same = contains-joins rows pgid own_pid (ancestors_of own_pid (by_pid rows)) p in
    (
      λ h. (
        ground (arith, same),
        inr (ground (arith, same, nat_beq_iff p own_pid), ground (arith, same)),
      ),
      λ (found, apart). elim apart [
        | inl e ↦ cc
        | inr (other, free) ↦ ground (arith, same, nat_beq_iff p own_pid)
      ],
    )
