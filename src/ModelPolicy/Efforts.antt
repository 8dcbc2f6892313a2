-- ===== src/ModelPolicy/Efforts.antt =====
-- src/runners/model-policy.ts: the efforts that are passed to each command-line agent.
pub mod Accepted
use Prim.Native.String.{String}
use the_dudes_daemon.Base.{
  ℕ, Bool, true, false, not, ◌&&◌, ◌||◌, Option, none, some, List, [], ◌∷◌, if◌then◌else◌, ◌==◌,
  comparable_string, contains, leb,
}
use the_dudes_daemon.ModelPolicy.Names.{strip_effort, grok4_number}
use the_dudes_daemon.SuitePark.Command.{base_name}

abbrev pub codex_efforts : List String
codex_efforts = "low" ∷ "medium" ∷ "high" ∷ "xhigh" ∷ []

-- A chain of tests by `===` is a search in a list.
pub codex_effort : String → String
codex_effort level = if contains level codex_efforts then level else "xhigh"

abbrev pub qwen_effort_options : List String
qwen_effort_options = "none" ∷ "low" ∷ "medium" ∷ "high" ∷ "xhigh" ∷ "max" ∷ []

pub qwen_reasoning_effort : Option String → Option String
qwen_reasoning_effort none = none
qwen_reasoning_effort (some level) =
    if level == ""
    then none
    else if contains level ("none" ∷ "minimal" ∷ [])
    then some "none"
    else if contains level ("low" ∷ "medium" ∷ "high" ∷ "xhigh" ∷ "max" ∷ [])
    then some level
    else none

weak : List String → Option String → Bool
weak names none = true
weak names (some effort) = effort == "" || contains effort names

pub claude_thinking_effort : Option String → Bool → Option String × Bool
unfolding weak
claude_thinking_effort effort collect_thinking =
    let lifted = collect_thinking && weak ("low" ∷ "medium" ∷ []) effort in
    (if lifted then some "high" else effort, lifted)

abbrev pub grok_wire : List String
grok_wire = "low" ∷ "medium" ∷ "high" ∷ []

abbrev pub grok_wire_xhigh : List String
grok_wire_xhigh = "low" ∷ "medium" ∷ "high" ∷ "xhigh" ∷ []

pub lifted_effort : Option String → Bool → Bool → Option String
unfolding weak
lifted_effort effort collect_thinking for_compact =
    if not for_compact
      && collect_thinking
      && weak ("none" ∷ "minimal" ∷ "low" ∷ "medium" ∷ []) effort
    then some "high"
    else effort

module _ (trim lower : String → String) where
  grok4_minor_of : Option String → Option ℕ
  unfolding grok4_number base_name strip_effort
  grok4_minor_of none = grok4_number (base_name (strip_effort (lower (trim ""))))
  grok4_minor_of (some model) = grok4_number (base_name (strip_effort (lower (trim model))))

  at_least_six : Option ℕ → Bool
  at_least_six none = false
  at_least_six (some minor) = leb 6 minor

  is_custom : Option String → Bool
  is_custom none = false
  is_custom (some runner) = runner == "grok-custom"

  pub grok_supports_xhigh : Option String → Option String → Bool
  unfolding grok4_minor_of at_least_six is_custom
  grok_supports_xhigh model runner = is_custom runner || at_least_six (grok4_minor_of model)

  pub grok_wire_efforts : Option String → Option String → List String
  unfolding grok_supports_xhigh
  grok_wire_efforts model runner =
      if grok_supports_xhigh model runner then grok_wire_xhigh else grok_wire

  pub normalize_grok_effort : Option String → Option String → Option String → Option String
  unfolding grok_supports_xhigh
  normalize_grok_effort none model runner = none
  normalize_grok_effort (some effort) model runner =
      if effort == ""
      then none
      else if contains effort grok_wire
      then some effort
      else if contains effort ("none" ∷ "minimal" ∷ "off" ∷ [])
      then some "low"
      else if contains effort ("xhigh" ∷ "max" ∷ [])
      then (if grok_supports_xhigh model runner then some "xhigh" else some "high")
      else some "medium"

  pub grok_thinking_effort :
      Option String → Bool → Bool → Option String → Option String → Option String
  unfolding normalize_grok_effort lifted_effort
  grok_thinking_effort effort collect_thinking for_compact model runner =
      normalize_grok_effort (lifted_effort effort collect_thinking for_compact) model runner
