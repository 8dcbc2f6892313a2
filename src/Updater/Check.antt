-- ===== src/Updater/Check.antt =====
-- src/self-update.ts: `checkAndApplyUpdate`. What it does to the disk is a list of operations.
pub mod Safe
pub mod Clock
use Prim.Native.String.{String}
use the_dudes_daemon.Base.{
  ℕ, Bool, true, false, not, ◌&&◌, ◌||◌, Option, none, some, List, [], ◌∷◌, ◌++◌, if◌then◌else◌,
  ◌==◌, comparable_string, ◌>>=◌,
}
use the_dudes_daemon.Updater.{
  Config, UpdateState, UpdateResult, current, failed, plan_restart_when_idle,
}
use the_dudes_daemon.Updater.Bundle.{
  Platform, max_text_bytes, fetch_bytes, first_word, is_hex_of, fetch_verified, install, guard,
}

pub data DiskOp (B : Type 0) : Type 0 where
  wrote : String → B → DiskOp B
  renamed : String → DiskOp B

-- The arguments of a check that its call gives.
pub record Request : Type 0 where
  pub orch_base : String
  pub running_hash : Option String
  pub running_build_ts : ℕ
  pub trusted_pubs : List String
  pub now : ℕ
  pub idle : Bool

pub record Checked (B : Type 0) : Type 0 where
  pub state : UpdateState
  pub ops : List (DiskOp B)
  pub result : UpdateResult
  pub sets_timer : Bool

abbrev pub names : List String
names = "daemon.cjs" ∷ "mcp-bridge.cjs" ∷ []

module _ {B : Type 0} where
  -- An operation that may throw, and what follows it.
  attempt : Bool → DiskOp B → List (DiskOp B) × Bool → List (DiskOp B) × Bool
  attempt false op (ops, done) = ([], false)
  attempt true op (ops, done) = (op ∷ ops, done)

  both : List (DiskOp B) × Bool → List (DiskOp B) × Bool → List (DiskOp B) × Bool
  both (ops, false) later = (ops, false)
  both (ops, true) (later, done) = (ops ++ later, done)

module _ {B S : Type 0} (p : Platform B S) (c : Config) (r : Request) where
  -- `writeFileSync` of the verified bundle beside the binary that runs.
  write_if : String → Option B → List (DiskOp B) × Bool → List (DiskOp B) × Bool
  unfolding attempt
  write_if name none rest = ([], false)
  write_if name (some bundle) rest = attempt (p.write name) (wrote name bundle) rest

  pub download : List String → List (DiskOp B) × Bool
  unfolding write_if
  download [] = ([], true)
  download (name ∷ rest) =
      write_if name (fetch_verified p r.orch_base r.trusted_pubs r.running_build_ts name)
        (download rest)

  pub rename_all : List String → List (DiskOp B) × Bool
  unfolding attempt
  rename_all [] = ([], true)
  rename_all (name ∷ rest) = attempt (p.rename name) (renamed name) (rename_all rest)

  -- `updatePendingSince ??= now()`
  since : Option ℕ → ℕ
  since none = r.now
  since (some t) = t

  swapped : String → UpdateState → UpdateState
  unfolding since
  swapped published s = record s {
    applied_release_hash = some published;
    update_pending = true;
    update_pending_since = some (since s.update_pending_since);
  }

  planned : List (DiskOp B) → (UpdateState × UpdateResult) × Bool → Checked B
  planned ops ((s, result), timer) = record {
    state = s;
    ops = ops;
    result = result;
    sets_timer = timer;
  }

  finish : UpdateState → String → List (DiskOp B) × Bool → Checked B
  unfolding swapped planned
  finish s published (ops, false) = record {
    state = s;
    ops = ops;
    result = failed;
    sets_timer = false;
  }
  finish s published (ops, true) =
      planned ops (plan_restart_when_idle c r.idle (swapped published s))

  runs_already : String → Option String → Bool
  runs_already published none = false
  runs_already published (some hash) = not (hash == "") && published == p.lower hash

  was_applied : String → UpdateState → Bool
  was_applied published s =
      s.update_pending && elim s.applied_release_hash [ none ↦ false | some h ↦ h == published ]

  -- `published` is a hash that is well formed.
  proceed : UpdateState → String → Checked B
  unfolding runs_already was_applied finish both download rename_all
  proceed s published =
      if runs_already published r.running_hash
      then record { state = s; ops = []; result = current; sets_timer = false }
      else if was_applied published s
      then planned [] (plan_restart_when_idle c r.idle s)
      else finish s published (both (download names) (rename_all names))

  published_hash : Option String
  published_hash = do
    body ← fetch_bytes p (install r.orch_base "daemon.cjs.sha256") max_text_bytes
    let published = p.lower (first_word p body)
    _ ← guard (is_hex_of 64 published)
    some published

  proceed_if : UpdateState → Option String → Checked B
  unfolding proceed
  proceed_if s none = record { state = s; ops = []; result = failed; sets_timer = false }
  proceed_if s (some published) = proceed s published

  pub check_and_apply_update : UpdateState → Checked B
  unfolding proceed_if published_hash
  check_and_apply_update s = proceed_if s published_hash
