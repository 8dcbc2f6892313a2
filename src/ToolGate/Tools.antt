-- ===== src/ToolGate/Tools.antt =====
-- Who is shown the tools that start, stop, save and remove agents.
use Prim.Native.String.{String}
use the_dudes_daemon.Base.{◌≡◌, ◌↔◌, true, Option, List, [], ◌∷◌, All, comparable_string}
use the_dudes_daemon.ToolGate.{bridge_tool_allowed}

abbrev pub control_tools : List String
control_tools = "save_agent" ∷ "stop_agent" ∷ "start_agent" ∷ "remove_agent" ∷ []

-- The four tools that control agents are registered for the role "controller" and for no other,
-- whatever features the project has, and also where it names none.
pub control_tools_iff :
    (groups : Option (List String)) (role : String)
    → All
        (λ name. (bridge_tool_allowed name groups role ≡ true) ↔ (role ≡ "controller"))
        control_tools
unfolding bridge_tool_allowed
control_tools_iff groups role =
    let decided = comparable_string.agree_iff role "controller" in
    (decided, (decided, (decided, (decided, tt))))
