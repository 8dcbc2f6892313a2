-- ===== src/Updater/Examples.antt =====
-- Tests and witnesses of the update: a server with one release, signed by the only key.
use Prim.Native.String.{String}
use the_dudes_daemon.Base.{
  ◌≡◌, refl, true, false, none, some, List, [], ◌∷◌, ◌==◌, ◌||◌, ◌&&◌, not, comparable_string, All,
  any, if◌then◌else◌,
}
use the_dudes_daemon.Updater.{Config, UpdateState, drain_after_ms, drain_force_ms, ticks, Look}
use the_dudes_daemon.Updater.Deadline.{is_restart, is_manual, due, ticks_lem}
use the_dudes_daemon.Updater.Bundle.{Platform}
use the_dudes_daemon.Updater.Check.{Request, check_and_apply_update}
use the_dudes_daemon.Updater.Check.Safe.{IsSafe, check_and_apply_update-IsSafe}
use the_dudes_daemon.Updater.Check.Clock.{Keeps, check_and_apply_update-Keeps}

abbrev hash : String
hash = "0123456789abcdef0123456789abcdef0123456789abcdef0123456789abcdef"

abbrev server : String → String
server url =
    if url == "o/install/daemon.cjs.sha256" || url == "o/install/mcp-bridge.cjs.sha256"
    then hash
    else "bundle"

abbrev platform : Platform String String
platform = record {
  fetch = λ url. some (server url);
  size = λ b. 64;
  text = λ b. b;
  lower = λ t. t;
  decode = λ t. some t;
  sig_size = λ s. 64;
  ed_verify = λ b key s. some (key == "trusted");
  sha256 = λ b. hash;
  named_build_ts = λ b. some 5;
  write = λ name. true;
  rename = λ name. true;
}

abbrev config : Config
config = record {
  under_launcher = true;
  drain_after_ms = drain_after_ms;
  drain_force_ms = drain_force_ms;
  can_drain = true;
}

abbrev request : Request
request = record {
  orch_base = "o";
  running_hash = none;
  running_build_ts = 4;
  trusted_pubs = "trusted" ∷ [];
  now = 1000;
  idle = false;
}

abbrev waiting : UpdateState
waiting = record {
  idle_restart_armed = true;
  update_pending = true;
  update_pending_since = some 0;
  update_draining = false;
  drain_forced = false;
  applied_release_hash = some "old";
}

check_and_apply_update-IsSafe_example :
    All
      (IsSafe platform config request)
      (check_and_apply_update platform config request waiting).ops
check_and_apply_update-IsSafe_example =
    check_and_apply_update-IsSafe platform config request waiting

check_and_apply_update-Keeps_example :
    Keeps platform config request waiting (check_and_apply_update platform config request waiting)
check_and_apply_update-Keeps_example = check_and_apply_update-Keeps platform config request waiting

-- Four looks at a daemon that is never idle, the last at the deadline.
abbrev looks : List Look
looks =
    record { now = 15000; idle = false }
    ∷ record { now = 600000; idle = false }
    ∷ record { now = 1499999; idle = false }
    ∷ record { now = 1500000; idle = false }
    ∷ []

ticks_lem_example :
    let end = (ticks config looks waiting).1 in
    (is_restart end ≡ (config.under_launcher && any (due config 0) looks))
    × (is_manual end ≡ (not config.under_launcher && any (due config 0) looks))
ticks_lem_example = ticks_lem config looks 0 waiting refl refl refl

restart_test : any (due config 0) looks ≡ true
restart_test = refl
