-- ===== src/SuitePark/Tree.antt =====
-- src/suite-park.ts: the process table as a forest, and the suites found in it.
pub mod Walk
pub mod Rows
pub mod Members
pub mod Observer
use Prim.Native.String.{String}
use text.Mathlib.Text.{starts_with}
use the_dudes_daemon.Base.{
  ℕ, zero, suc, ◌+◌, Bool, true, false, not, ◌&&◌, ◌||◌, Option, none, some, List, [], ◌∷◌, ◌++◌,
  ltb, leb, if◌then◌else◌, ◌==◌, ◌>>=◌, comparable_nat, map, filter, contains, add, lookup, insert,
}
use the_dudes_daemon.SuitePark.Command.{is_test_root}

pub record ProcRow : Type 0 where
  pub pid : ℕ
  pub ppid : ℕ
  pub pgid : ℕ
  pub stat : String
  pub elapsed_ms : ℕ
  pub cpu_ms : ℕ
  pub command : String

pub record Suite : Type 0 where
  pub root_pid : ℕ
  pub pgid : ℕ
  pub command : String
  pub members : List ℕ
  pub cpu_by_pid : List (ℕ × ℕ)
  pub runnable_pids : List ℕ
  pub age_ms : ℕ
  pub cpu_ms : ℕ
  pub kill_group : Bool

abbrev pub ProcTable : Type 0
ProcTable = List (ℕ × ProcRow)

abbrev pub Children : Type 0
Children = List (ℕ × List ℕ)

index_rows : ProcTable → List ProcRow → ProcTable
index_rows m [] = m
index_rows m (r ∷ rows) = index_rows (insert r.pid r m) rows

-- `new Map(rows.map((r) => [r.pid, r]))`
unfoldable pub by_pid : List ProcRow → ProcTable
unfolding index_rows
by_pid rows = index_rows [] rows

abbrev pub or_empty : Option (List ℕ) → List ℕ
or_empty none = []
or_empty (some pids) = pids

-- `children.get(pid) ?? []`
unfoldable pub kids : Children → ℕ → List ℕ
kids children pid = or_empty (lookup pid children)

group_children : Children → List ProcRow → Children
unfolding kids
group_children m [] = m
group_children m (r ∷ rows) = group_children (insert r.ppid (kids m r.ppid ++ r.pid ∷ []) m) rows

unfoldable pub children_of : List ProcRow → Children
unfolding group_children
children_of rows = group_children [] rows

abbrev parent : Option ProcRow → ℕ
parent none = 0
parent (some r) = r.ppid

ancestors_from : ℕ → ℕ → ProcTable → List ℕ → List ℕ
ancestors_from zero cur table out = out
ancestors_from (suc n) cur table out =
    let rest = ancestors_from n (parent (lookup cur table)) table (add cur out) in
    if ltb 1 cur && not (contains cur out) then rest else out

unfoldable pub ancestors_of : ℕ → ProcTable → List ℕ
unfolding ancestors_from
ancestors_of pid table = ancestors_from 64 (parent (lookup pid table)) table []

-- `stack.push(...pids)`: the head of the list is the top of the stack.
unfoldable pub push_all : List ℕ → List ℕ → List ℕ
push_all [] stack = stack
push_all (p ∷ pids) stack = push_all pids (p ∷ stack)

-- The loop of `descendantsOf`; `none` where the fuel ran out.
unfoldable pub descend : ℕ → Children → List ℕ → List ℕ → Option (List ℕ)
unfolding push_all kids
descend fuel children [] out = some out
descend zero children (p ∷ stack) out = none
descend (suc fuel) children (p ∷ stack) out =
    descend fuel children (push_all (kids children p) stack) (out ++ p ∷ [])

unfoldable pub descendants_of : ℕ → ℕ → Children → Option (List ℕ)
unfolding descend
descendants_of fuel root children = descend fuel children (push_all (kids children root) []) []

abbrev pub add_all : List ℕ → List ℕ → List ℕ
add_all [] set = set
add_all (p ∷ pids) set = add_all pids (add p set)

insert_sorted : ℕ → List ℕ → List ℕ
insert_sorted x [] = x ∷ []
insert_sorted x (y ∷ ys) = if leb x y then x ∷ y ∷ ys else y ∷ insert_sorted x ys

-- `[...pids].sort((a, b) => a - b)`
unfoldable pub sort : List ℕ → List ℕ
unfolding insert_sorted
sort [] = []
sort (x ∷ xs) = insert_sorted x (sort xs)

abbrev pub pids_of : List ProcRow → List ℕ
pids_of rows = map (λ (r : ProcRow). r.pid) rows

abbrev pgid_of : Option ProcRow → Option ℕ
pgid_of none = none
pgid_of (some r) = some r.pgid

-- `root.pgid > 1 && root.pgid !== ownPgid`; an observer without a row has the group -1.
unfoldable pub may_kill_group : ℕ → Option ℕ → Bool
may_kill_group pgid none = ltb 1 pgid
may_kill_group pgid (some own_pgid) = ltb 1 pgid && not (pgid == own_pgid)

-- Who is added besides the descendants: the group, but for the observer and its ancestors where the
-- group may be the observer's.
unfoldable pub joins_by_group : Bool → ℕ → ℕ → List ℕ → ProcRow → Bool
joins_by_group true pgid own_pid own_ancestors r = r.pgid == pgid
joins_by_group false pgid own_pid own_ancestors r =
    r.pgid == pgid && not (r.pid == own_pid) && not (contains r.pid own_ancestors)

abbrev pub cpu_of : Option ProcRow → ℕ
cpu_of none = 0
cpu_of (some r) = r.cpu_ms

abbrev pub runnable : Option ProcRow → Bool
runnable none = false
runnable (some r) = starts_with r.stat "R"

sum : List ℕ → ℕ
sum [] = 0
sum (x ∷ xs) = x + sum xs

unfoldable pub members_of : Bool → List ProcRow → ℕ → List ℕ → ProcRow → List ℕ → List ℕ
unfolding joins_by_group
members_of kill_group rows own_pid own_ancestors root below =
    add_all (pids_of (filter (joins_by_group kill_group root.pgid own_pid own_ancestors) rows))
      (add_all below (root.pid ∷ []))

unfoldable pub suite_of : List ProcRow → ℕ → ProcRow → List ℕ → Suite
unfolding by_pid ancestors_of may_kill_group members_of sort sum
suite_of rows own_pid root below =
    let table = by_pid rows in
    let kill_group = may_kill_group root.pgid (pgid_of (lookup own_pid table)) in
    let members = members_of kill_group rows own_pid (ancestors_of own_pid table) root below in
    record {
      root_pid = root.pid;
      pgid = root.pgid;
      command = root.command;
      members = sort members;
      cpu_by_pid = map (λ pid. (pid, cpu_of (lookup pid table))) members;
      runnable_pids = filter (λ pid. runnable (lookup pid table)) members;
      age_ms = root.elapsed_ms;
      cpu_ms = sum (map (λ pid. cpu_of (lookup pid table)) members);
      kill_group = kill_group;
    }

collect_from : ℕ → List ProcRow → ℕ → Children → List ProcRow → Option (List Suite)
unfolding descendants_of suite_of
collect_from fuel rows own_pid children [] = some []
collect_from fuel rows own_pid children (root ∷ roots) = do
  below ← descendants_of fuel root.pid children
  suites ← collect_from fuel rows own_pid children roots
  some (suite_of rows own_pid root below ∷ suites)

-- `none` where a walk down the table ran out of fuel.
unfoldable pub collect_suites : ℕ → List ProcRow → ℕ → Option (List Suite)
unfolding collect_from children_of
collect_suites fuel rows own_pid =
    collect_from fuel rows own_pid (children_of rows)
      (filter (λ (r : ProcRow). is_test_root r.command) rows)
