-- ===== src/Updater/Boot.antt =====
-- src/self-update.ts: the hash of the binary at boot, and the race of the children's end against its
-- time limit before the exit.
use Prim.Native.String.{String}
use the_dudes_daemon.Base.{
  ap, subst, sym, ◌≡◌, refl, Bool, true, false, Option, List, [], ◌∷◌, arith, if◌then◌else◌,
}

pub record BootHash : Type 0 where
  pub boot_binary_hash : Option String
  pub boot_hash_captured : Bool

-- `read` is the digest of the file, `none` where it cannot be read.
pub capture_boot_binary_hash : Option String → BootHash → BootHash × Option String
capture_boot_binary_hash read s =
    if s.boot_hash_captured
    then (s, s.boot_binary_hash)
    else (record { boot_binary_hash = read; boot_hash_captured = true }, read)

-- The hash that the first call took is the one of each later call, whatever the file is by then.
pub capture-capture :
    (first later : Option String) (s : BootHash)
    → (capture_boot_binary_hash later (capture_boot_binary_hash first s).0)
      ≡ ((capture_boot_binary_hash first s).0, (capture_boot_binary_hash first s).1)
unfolding capture_boot_binary_hash
capture-capture first later s = ground arith

-- What may end the wait for the children: they are through, the call fails, or the time is over.
pub data Why : Type 0 where
  ok timeout error : Why

-- `done` and the causes for which the promise was resolved.
pub record Race : Type 0 where
  pub done : Bool
  pub resolved : List Why

settle : Bool → Why → Race → Race
settle true why r = r
settle false why r = record { done = true; resolved = why ∷ r.resolved }

pub run_race : List Why → Race → Race
unfolding settle
run_race [] r = r
run_race (why ∷ rest) r = run_race rest (settle r.done why r)

run_race-done : (events : List Why) (r : Race) → r.done ≡ true → run_race events r ≡ r
unfolding run_race settle
run_race-done [] r h = refl
run_race-done (why ∷ rest) r h =
    subst (λ b. run_race rest (settle b why r) ≡ r) (sym h) (run_race-done rest r h)

-- The first event, whichever it is, resolves the wait, and no later one does again.
pub run_race_lem :
    (why : Why) (rest : List Why)
    → (run_race (why ∷ rest) (record { done = false; resolved = [] })).resolved ≡ why ∷ []
unfolding run_race settle
run_race_lem why rest =
    ap (λ (r : Race). r.resolved)
      (run_race-done rest (record { done = true; resolved = why ∷ [] }) refl)
