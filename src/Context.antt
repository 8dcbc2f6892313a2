-- ===== src/Context.antt =====
-- src/runners/context-tracker.ts, `ContextTracker`: how full the context of an agent is, and when it
-- is warned of or compacted. The callbacks are recorded in `observed`, the newest first, with the
-- time of each `onFull`. `resolveLimit` and `resolveLimitKnown` are parameters; the numbers are whole
-- and not negative.
mod Notices
mod Cumulative
mod Examples
use Prim.Native.String.{String}
use the_dudes_daemon.Base.{
  ℕ, suc, ◌+◌, ◌*◌, Bool, true, false, not, ◌&&◌, Option, none, some, List, [], ◌∷◌, leb, ltb, max,
  if◌then◌else◌, comparable_nat, comparable_string, ◌==◌,
}

pub record AgentUsage : Type 0 where
  pub input : ℕ
  pub cache_create : ℕ
  pub cache_read : ℕ

pub data UsageSemantics : Type 0 where
  anthropic inclusive auto : UsageSemantics

pub context_tokens_of : AgentUsage → UsageSemantics → ℕ
context_tokens_of delta anthropic = delta.input + delta.cache_create + delta.cache_read
context_tokens_of delta inclusive = delta.input
context_tokens_of delta auto =
    if leb (delta.cache_create + delta.cache_read) delta.input
    then delta.input
    else delta.input + delta.cache_create + delta.cache_read

abbrev pub context_full_cooldown_ms : ℕ
context_full_cooldown_ms = 120000

abbrev pub max_compact_fail_streak : ℕ
max_compact_fail_streak = 3

-- `used / limit >= CONTEXT_WARN_PCT`, which is 0.85.
abbrev is_warning : ℕ → ℕ → Bool
is_warning used limit = leb (85 * limit) (100 * used)

pub data Notice : Type 0 where
  usage warning : ℕ → ℕ → Notice
  full : ℕ → Notice
  error : ℕ → Notice

pub record Tracker : Type 0 where
  pub used : ℕ
  pub resolved_model : Option String
  pub catalog_limit : Option ℕ
  pub warned : Bool
  pub last_full_at : ℕ
  pub compact_fail_streak : ℕ
  pub observed : List Notice

pub create : Tracker
create = record {
  used = 0;
  resolved_model = none;
  catalog_limit = none;
  warned = false;
  last_full_at = 0;
  compact_fail_streak = 0;
  observed = [];
}

abbrev pub observe : Notice → Tracker → Tracker
observe n t = record t { observed = n ∷ t.observed }

pub set_resolved_model : String → Tracker → Tracker
set_resolved_model model t = if model == "" then t else record t { resolved_model = some model }

pub set_catalog_limit : ℕ → Tracker → Tracker
set_catalog_limit limit t = if ltb 0 limit then record t { catalog_limit = some limit } else t

pub notify_full : ℕ → Tracker → Tracker
notify_full now t =
    if leb max_compact_fail_streak t.compact_fail_streak
    then t
    else if ltb now (t.last_full_at + context_full_cooldown_ms)
    then t
    else observe (full now) (record t { last_full_at = now })

-- Whether `classifyRunnerFailure` gives "context_full" for the message.
pub check_full_error : Bool → ℕ → Tracker → Tracker
unfolding notify_full
check_full_error is_context_full now t = if is_context_full then notify_full now t else t

pub register_compact_failure : Tracker → Tracker
register_compact_failure t =
    let streak = suc t.compact_fail_streak in
    observe (error streak) (record t { compact_fail_streak = streak })

abbrev positive : Option ℕ → Option ℕ
positive none = none
positive (some limit) = if ltb 0 limit then some limit else none

abbrev or_zero : Option ℕ → ℕ
or_zero none = 0
or_zero (some n) = n

abbrev pub Resolver : Type 0 → Type 0
Resolver A = Option String → Option ℕ → A

-- The second resolver is optional in the source.
module _ (resolve_limit : Resolver ℕ) (resolve_limit_known : Option (Resolver (Option ℕ))) where
  pub limit : Tracker → ℕ
  limit t = resolve_limit t.resolved_model t.catalog_limit

  pub limit_known_value : Tracker → Option ℕ
  unfolding limit
  limit_known_value t = elim resolve_limit_known [
    | none ↦ some (limit t)
    | some known ↦ positive (known t.resolved_model t.catalog_limit)
  ]

  pub limit_out : Tracker → ℕ
  unfolding limit limit_known_value
  limit_out t = elim resolve_limit_known [
    | none ↦ limit t
    | some known ↦ or_zero (limit_known_value t)
  ]

  pub reset : Tracker → Tracker
  reset t =
      let t' = record t { warned = false; last_full_at = 0; used = 0; compact_fail_streak = 0 } in
      observe (usage 0 (limit_out t')) t'

  -- The window that the report is measured against, and the one that is shown.
  pub window : Option ℕ → Tracker → ℕ
  window hint t = elim (positive hint) [ none ↦ limit t | some h ↦ max (limit t) h ]

  hint_is_real : Option ℕ → ℕ → Bool
  hint_is_real hint limit = elim (positive hint) [ none ↦ false | some h ↦ limit == h ]

  shown : Option ℕ → ℕ → Tracker → ℕ
  shown hint limit t = elim resolve_limit_known [
    | none ↦ limit
    | some known ↦ if hint_is_real hint limit then limit else or_zero (limit_known_value t)
  ]

  -- What follows `onUsage`.
  alarm : ℕ → ℕ → Tracker → Tracker
  alarm limit now t =
      if t.used == 0
      then t
      else if leb limit t.used
      then notify_full now t
      else if is_warning t.used limit && not t.warned
      then observe (warning t.used limit) (record t { warned = true })
      else t

  -- `this.used = next` and `onUsage`.
  measured : ℕ → Option ℕ → Tracker → Tracker
  measured used hint t =
      let limit = window hint t in
      let next = if ltb 0 limit && ltb limit used then limit else used in
      observe (usage next (shown hint limit t)) (record t { used = next })

  pub report_occupancy : ℕ → Option ℕ → ℕ → Tracker → Tracker
  unfolding alarm measured
  report_occupancy used hint now t = alarm (window hint t) now (measured used hint t)

  pub report_usage : AgentUsage → UsageSemantics → ℕ → Tracker → Tracker
  unfolding context_tokens_of
  report_usage delta semantics now t =
      let total = context_tokens_of delta semantics in
      if ltb 0 total then report_occupancy total none now t else t

  -- The calls between two resets.
  pub data Call : Type 0 where
    models : String → Call
    catalogs : ℕ → Call
    occupies : ℕ → Option ℕ → Call
    uses : AgentUsage → UsageSemantics → Call
    fails : Bool → Call
    compacts : Call

  pub step : Tracker → ℕ × Call → Tracker
  step t (now, models model) = set_resolved_model model t
  step t (now, catalogs limit) = set_catalog_limit limit t
  step t (now, occupies used hint) = report_occupancy used hint now t
  step t (now, uses delta semantics) = report_usage delta semantics now t
  step t (now, fails is_full) = check_full_error is_full now t
  step t (now, compacts) = register_compact_failure t

  pub run : Tracker → List (ℕ × Call) → Tracker
  run t [] = t
  run t (c ∷ cs) = run (step t c) cs
