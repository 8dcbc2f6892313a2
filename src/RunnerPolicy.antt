-- ===== src/RunnerPolicy.antt =====
-- src/runner-policy.ts: which runners are available. `cliCommands` is a map from the runner's name to its
-- `available`, and the list of the protocol's runners is an argument.
pub mod Applied
use Prim.Native.String.{String}
use the_dudes_daemon.Base.{
  Bool, true, false, ◌&&◌, Option, none, some, List, [], ◌∷◌, map, filter, contains, lookup, insert,
  comparable_string,
}

abbrev pub Availability : Type 0
Availability = List (String × Bool)

abbrev or_false : Option Bool → Bool
or_false none = false
or_false (some b) = b

pub is_available : String → Availability → Bool
is_available runner m = or_false (lookup runner m)

pub build_installed_runner_availability : List String → Availability → Availability
unfolding is_available
build_installed_runner_availability runners cli_commands =
    map (λ runner. (runner, is_available runner cli_commands)) runners

-- Runs through the runners that the policy is about, and writes each one's `available`.
pub apply_runner_policy : List String → Availability → Availability → List String → Availability
unfolding is_available
apply_runner_policy [] cli_commands installed allowed = cli_commands
apply_runner_policy (runner ∷ runners) cli_commands installed allowed =
    apply_runner_policy runners
      (insert runner (is_available runner installed && contains runner allowed) cli_commands)
      installed allowed

-- The lists of `daemon:hello`: available and installed.
pub hello_runner_lists :
    List String → Availability → Option Availability → List String × List String
hello_runner_lists runners cli_commands none = (
  filter (λ r. is_available r cli_commands) runners,
  filter (λ r. is_available r cli_commands) runners,
)
hello_runner_lists runners cli_commands (some installed) = (
  filter (λ r. is_available r cli_commands) runners,
  filter (λ r. is_available r installed) runners,
)
