-- ===== src/Context/Cumulative.antt =====
-- src/runners/context-tracker.ts, `CumulativeUsageTracker`: a runner reports its counters since it
-- started, and the tracker turns them into what was used since the last report. A record of counters
-- is its entries, and the tracker is its `base`. The counters are whole and not negative, so
-- `Math.max(0, value - before)` is the subtraction that stops at 0.
use Prim.Native.String.{String}
use the_dudes_daemon.Base.{
  ℕ, ◌+◌, ◌-◌, ◌≡◌, refl, Option, none, some, List, [], ◌∷◌, lookup, comparable_string, arith, ◌≤◌,
  ap, ◌∙◌, Bool-cases, inl, inr, if◌then◌else◌, ◌==◌,
}

abbrev pub Counts : Type 0
Counts = List (String × ℕ)

pub reset : Counts → Option Counts → Option Counts
reset base t = some base

unfoldable pub prime : Counts → Option Counts → Option Counts
prime base none = some base
prime base (some old) = some old

-- `base?.[key] ?? 0`
abbrev pub count_of : String → Option Counts → ℕ
count_of key none = 0
count_of key (some base) = elim (lookup key base) [ none ↦ 0 | some n ↦ n ]

unfoldable pub grown : Option Counts → Counts → Counts
grown base [] = []
grown base ((key, value) ∷ next) = (key, value - count_of key base) ∷ grown base next

unfoldable pub delta : Counts → Option Counts → Counts × Option Counts
unfolding grown
delta next base = (grown base next, some next)

-- What the reports bring, in their order, and the tracker after them.
unfoldable pub deltas : List Counts → Option Counts → List Counts × Option Counts
unfolding delta
deltas [] t = ([], t)
deltas (next ∷ reports) t =
    let (d, t') = delta next t in let (ds, last) = deltas reports t' in (d ∷ ds, last)

-- The counter stands at `before` where the tracker's last report has it so, and at 0 where the tracker
-- has no report yet.
pub data Stands (key : String) : Option Counts → ℕ → Type 0 where
  unreported : Stands key none 0
  reported : (base : Counts) (n : ℕ) → lookup key base ≡ some n → Stands key (some base) n

-- The counter is in every report and never goes back: it stands at `before` first, and at `last`
-- after the reports.
pub data Rises (key : String) : ℕ → List Counts → ℕ → Type 0 where
  done : (n : ℕ) → Rises key n [] n
  further :
      (before n last : ℕ) (report : Counts) (reports : List Counts)
      → lookup key report ≡ some n
      → before ≤ n
      → Rises key n reports last
      → Rises key before (report ∷ reports) last

-- The counter is in every record, and its values come to `total`.
pub data Sums (key : String) : List Counts → ℕ → Type 0 where
  nothing : Sums key [] 0
  plus :
      (n total : ℕ) (d : Counts) (ds : List Counts)
      → lookup key d ≡ some n
      → Sums key ds total
      → Sums key (d ∷ ds) (n + total)

lookup-grown :
    (key : String) (base : Option Counts) (next : Counts) (n : ℕ)
    → lookup key next ≡ some n
    → lookup key (grown base next) ≡ some (n - count_of key base)
unfolding grown
lookup-grown key base [] n h = cc
lookup-grown key base ((j, value) ∷ next) n h = elim (Bool-cases (j == key)) [
  | inl e ↦
      let same : j ≡ key = (comparable_string.agree_iff j key).0 e in
      let found : (if j == key then some value else lookup key next) ≡ some value = rw e refl in
      let is_n : some value ≡ some n = cc (h, found) in rw e (cc (same, is_n))
  | inr e ↦
      let found : (if j == key then some value else lookup key next) ≡ lookup key next =
        rw e refl in
      rw e (lookup-grown key base next n (cc (h, found)))
]

count_of-Stands :
    (key : String) (t : Option Counts) (before : ℕ) → Stands key t before → count_of key t ≡ before
count_of-Stands key _ _ unreported = refl
count_of-Stands key _ _ (reported base n h) = rw (h, count_of) refl

-- For a counter that is in every report and never goes back, every delta has its part of the use, and
-- the parts come to exactly what it gained from where it stood before the reports to the last one.
pub deltas-total :
    (key : String) (t : Option Counts) (before last : ℕ) (reports : List Counts)
    → Stands key t before
    → Rises key before reports last
    → (total : ℕ) × Sums key (deltas reports t).0 total × (before + total ≡ last)
unfolding deltas delta
deltas-total key t _ _ _ s (done before) = (0, nothing, omega arith)
deltas-total key t _ _ _ s (further before n last report reports found up more) =
    let (total, sums, same) =
      deltas-total key (some report) n last reports (reported report n found) more in
    (
      n - before + total,
      plus (n - before) total (grown t report) (deltas reports (some report)).0
          (lookup-grown key t report n found
            ∙ ap (λ c. some (n - c)) (count_of-Stands key t before s))
          sums,
      omega (arith, same, up),
    )
