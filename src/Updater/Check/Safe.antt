-- ===== src/Updater/Check/Safe.antt =====
-- What a check does to the disk and to the state.
use Prim.Native.String.{String}
use the_dudes_daemon.Base.{
  if-holds, ◌≡◌, refl, Bool, true, false, Option, none, some, List, [], ◌∷◌, All, All-append,
}
use the_dudes_daemon.Updater.{Config, UpdateState, UpdateResult, plan_restart_when_idle}
use the_dudes_daemon.Updater.Bundle.{Platform}
use the_dudes_daemon.Updater.Bundle.Trusted.{Trusted, fetch_verified-Trusted}
use the_dudes_daemon.Updater.Check.{
  DiskOp, wrote, renamed, Request, Checked, names, attempt, both, write_if, download, rename_all,
  swapped, planned, finish, runs_already, was_applied, published_hash, proceed_if,
  check_and_apply_update,
}

module _ {B S : Type 0} (p : Platform B S) (c : Config) (r : Request) where
  abbrev pub Verified : String → B → Type 0
  Verified name bundle = Trusted p r.orch_base r.trusted_pubs r.running_build_ts name bundle

  -- A bundle that is written is trusted, and nothing is renamed before a trusted bundle was found under
  -- each name.
  abbrev pub IsSafe : DiskOp B → Type 0
  IsSafe (wrote name bundle) = Verified name bundle
  IsSafe (renamed name) = All (λ n. (bundle : B) × Verified n bundle) names

  abbrev Found : List String → Type 0
  Found ns = All (λ n. (bundle : B) × Verified n bundle) ns

  abbrev Downloads : List String → List (DiskOp B) × Bool → Type 0
  Downloads ns d = All IsSafe d.0 × (d.1 ≡ true → Found ns)

  write_if-IsSafe :
      (name : String) (ns : List String) (found : Option B) (rest : List (DiskOp B) × Bool)
      → ((b : B) → found ≡ some b → Verified name b)
      → Downloads ns rest
      → Downloads (name ∷ ns) (write_if p c r name found rest)
  unfolding write_if
  write_if-IsSafe name ns none rest t d = (tt, λ e. cc)
  write_if-IsSafe name ns (some b) (ops, done) t d = written (p.write name)
    where
      written : (w : Bool) → Downloads (name ∷ ns) (attempt w (wrote name b) (ops, done))
      written true = ((t b refl, d.0), λ e. ((b, t b refl), d.1 e))
      written false = (tt, λ e. cc)

  download-IsSafe : (ns : List String) → Downloads ns (download p c r ns)
  unfolding download
  download-IsSafe [] = (tt, λ h. tt)
  download-IsSafe (name ∷ ns) =
      write_if-IsSafe name ns _ _ (λ b e. fetch_verified-Trusted p _ _ _ _ e) (download-IsSafe ns)

  attempt-IsSafe :
      (done : Bool) (op : DiskOp B) (rest : List (DiskOp B) × Bool)
      → IsSafe op
      → All IsSafe rest.0
      → All IsSafe (attempt done op rest).0
  unfolding attempt
  attempt-IsSafe true op (ops, done) s h = (s, h)
  attempt-IsSafe false op (ops, done) s h = tt

  rename_all-IsSafe : (ns : List String) → Found names → All IsSafe (rename_all p c r ns).0
  unfolding rename_all
  rename_all-IsSafe [] f = tt
  rename_all-IsSafe (name ∷ ns) f =
      attempt-IsSafe (p.rename name) (renamed name) _ f (rename_all-IsSafe ns f)

  both-IsSafe :
      (d later : List (DiskOp B) × Bool)
      → Downloads names d
      → (Found names → All IsSafe later.0)
      → All IsSafe (both d later).0
  unfolding both
  both-IsSafe (ops, false) later d h = d.0
  both-IsSafe (ops, true) (rest, done) d h = All-append IsSafe ops rest d.0 (h (d.1 refl))

  finish-IsSafe :
      (s : UpdateState) (published : String) (d : List (DiskOp B) × Bool)
      → All IsSafe d.0
      → All IsSafe (finish p c r s published d).ops
  unfolding finish
  finish-IsSafe s published (ops, false) h = h
  finish-IsSafe s published (ops, true) h =
      planned-ops (plan_restart_when_idle c r.idle (swapped p c r published s)) h
    where
      planned-ops :
          (result : (UpdateState × UpdateResult) × Bool)
          → All IsSafe ops
          → All IsSafe (planned p c r ops result).ops
      planned-ops ((t, u), timer) k = k

  planned-IsSafe :
      (result : (UpdateState × UpdateResult) × Bool) → All IsSafe (planned p c r [] result).ops
  unfolding planned
  planned-IsSafe ((s, u), timer) = tt

  -- A check writes no bundle that is not signed by a trusted key, announced under its hash, of a
  -- bounded size and, if it is the daemon's, newer than the one that runs; and it replaces no binary before
  -- both bundles were found so.
  pub check_and_apply_update-IsSafe :
      (s : UpdateState) → All IsSafe (check_and_apply_update p c r s).ops
  unfolding check_and_apply_update
  check_and_apply_update-IsSafe s = published (published_hash p c r)
    where
      published : (hash : Option String) → All IsSafe (proceed_if p c r s hash).ops
      published none = tt
      published (some hash) =
          if-holds (λ (out : Checked B). All IsSafe out.ops)
            (runs_already p c r hash r.running_hash) _ _ (λ e. tt)
            (if-holds (λ (out : Checked B). All IsSafe out.ops) (was_applied p c r hash s) _ _
              (λ e. planned-IsSafe (plan_restart_when_idle c r.idle s))
              (finish-IsSafe s hash (both (download p c r names) (rename_all p c r names))
                (both-IsSafe _ _ (download-IsSafe names) (rename_all-IsSafe names))))
