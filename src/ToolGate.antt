-- ===== src/ToolGate.antt =====
-- src/bridge-tool-gate.ts: which tools the bridge registers, and which requests the relay forwards in
-- the turn of somebody who is not the agent's owner. A path is its list of code points.
mod Requests
mod Tools
mod Examples
use Prim.Native.String.{String}
use Prim.Native.String
use Prim.Native.Char.{code}
use the_dudes_daemon.Base.{
  ℕ, zero, suc, Bool, true, false, not, ◌&&◌, ◌||◌, Option, none, some, List, [], ◌∷◌, leb,
  if◌then◌else◌, any, contains, lookup, comparable_nat, comparable_string, ◌==◌,
}

abbrev pub controller_role : String
controller_role = "controller"

abbrev pub role_gated_tools : List (String × String)
role_gated_tools =
    ("save_agent", controller_role)
    ∷ ("stop_agent", controller_role)
    ∷ ("start_agent", controller_role)
    ∷ ("remove_agent", controller_role)
    ∷ []

abbrev pub tool_group : List (String × String)
tool_group =
    ("send_message", "teammates")
    ∷ ("list_agents", "teammates")
    ∷ ("delegate", "teammates")
    ∷ ("list_tasks", "tasks")
    ∷ ("get_task", "tasks")
    ∷ ("add_task", "tasks")
    ∷ ("update_task", "tasks")
    ∷ ("lock_task", "tasks")
    ∷ ("unlock_task", "tasks")
    ∷ ("add_task_comment", "tasks")
    ∷ ("list_task_comments", "tasks")
    ∷ ("lock_file", "filelock")
    ∷ ("unlock_file", "filelock")
    ∷ ("list_file_locks", "filelock")
    ∷ ("list_plans", "tasks")
    ∷ ("get_plan", "tasks")
    ∷ ("create_plan", "tasks")
    ∷ ("add_plan_task", "tasks")
    ∷ ("apply_plan_tasks", "tasks")
    ∷ ("start_plan", "tasks")
    ∷ ("pause_plan", "tasks")
    ∷ ("validate_plan_task", "tasks")
    ∷ ("remember", "memory")
    ∷ ("recall", "memory")
    ∷ ("forget", "memory")
    ∷ ("pin", "memory")
    ∷ ("list_goals", "goals")
    ∷ ("get_credential", "credentials")
    ∷ ("list_webhooks", "webhooks")
    ∷ ("send_webhook", "webhooks")
    ∷ ("board_get", "board")
    ∷ ("board_clear", "board")
    ∷ ("board_set", "board")
    ∷ ("board_upsert_block", "board")
    ∷ ("board_remove_block", "board")
    ∷ ("board_focus", "board")
    ∷ ("board_set_step", "board")
    ∷ ("board_play", "board")
    ∷ ("board_pause", "board")
    ∷ ("board_say", "board")
    ∷ ("board_draw", "board")
    ∷ ("board_remove_annotation", "board")
    ∷ ("board_clear_drawings", "board")
    ∷ ("board_list", "board")
    ∷ ("board_create", "board")
    ∷ ("board_switch", "board")
    ∷ ("board_delete", "board")
    ∷ []

abbrev pub non_owner_read_only_bridge_ops : List String
non_owner_read_only_bridge_ops =
    "list" ∷ "tasks_list" ∷ "tasks_get" ∷ "tasks_comment_list" ∷ "tasks_files_locks" ∷ "goals_list"
    ∷ "plans_list" ∷ "plans_get" ∷ "list_webhooks" ∷ "memory_list" ∷ "board_get" ∷ "board_list" ∷ []

abbrev pub codes : String → List ℕ
codes String.[] = []
codes (String.◌∷◌ c s) = code c ∷ codes s

abbrev pub same_codes : List ℕ → List ℕ → Bool
same_codes [] [] = true
same_codes (c ∷ cs) (d ∷ ds) = c == d && same_codes cs ds
same_codes _ _ = false

-- `/`
abbrev pub slash : ℕ
slash = 47

-- `[A-Za-z0-9_]`
abbrev pub is_word : ℕ → Bool
is_word c = leb 65 c && leb c 90 || leb 97 c && leb c 122 || leb 48 c && leb c 57 || c == 95

abbrev pub all_words : List ℕ → Bool
all_words [] = true
all_words (c ∷ cs) = is_word c && all_words cs

-- The rest of a path that begins with the text.
strip : List ℕ → List ℕ → Option (List ℕ)
strip [] path = some path
strip (c ∷ text) [] = none
strip (c ∷ text) (d ∷ path) = if c == d then strip text path else none

-- The rest after the next slash.
after_slash : List ℕ → Option (List ℕ)
after_slash [] = none
after_slash (c ∷ path) = if c == slash then some path else after_slash path

-- `[^/]+\/`: at least one other character stands before the slash.
after_segment : List ℕ → Option (List ℕ)
unfolding after_slash
after_segment [] = none
after_segment (c ∷ path) = if c == slash then none else after_slash path

-- `([A-Za-z0-9_]+)$`
operation : List ℕ → Option (List ℕ)
operation [] = none
operation (c ∷ path) = if all_words (c ∷ path) then some (c ∷ path) else none

infixl 5 ◌>>=◌
abbrev pub ◌>>=◌ {ℓ κ} : {A : Type ℓ} {B : Type κ} → Option A → (A → Option B) → Option B
none >>= k = none
some a >>= k = k a

-- `pathname.match(/^\/api\/bridge\/[^/]+\/([A-Za-z0-9_]+)$/)`
match_path : List ℕ → Option (List ℕ)
unfolding strip after_segment operation
match_path path = do
  rest ← strip (codes "/api/bridge/") path
  last ← after_segment rest
  operation last

abbrev pub is_read_only : List ℕ → Bool
is_read_only op = any (λ name. same_codes (codes name) op) non_owner_read_only_bridge_ops

abbrev is_read_only_match : Option (List ℕ) → Bool
is_read_only_match none = false
is_read_only_match (some op) = is_read_only op

pub non_owner_bridge_request_allowed : String → List ℕ → Bool
unfolding match_path
non_owner_bridge_request_allowed method pathname =
    if not (method == "POST") && not (method == "GET")
    then false
    else is_read_only_match (match_path pathname)

-- The groups are `null` where an old daemon does not name them.
pub bridge_tool_allowed : String → Option (List String) → String → Bool
bridge_tool_allowed name enabled_groups agent_role = elim (lookup name role_gated_tools) [
  | some required ↦ agent_role == required
  | none ↦ elim (lookup name tool_group) [
    | none ↦ true
    | some g ↦ elim enabled_groups [ none ↦ true | some groups ↦ contains g groups ]
  ]
]
