-- ===== src/ToolGate/Examples.antt =====
-- Tests and witnesses of the tool gate.
use Prim.Native.String.{String}
use the_dudes_daemon.Base.{◌≡◌, ◌↔◌, ◌⊎◌, refl, true, false, some, [], ◌∷◌}
use the_dudes_daemon.ToolGate.{
  codes, strip, after_slash, after_segment, operation, match_path, non_owner_bridge_request_allowed,
  bridge_tool_allowed,
}
use the_dudes_daemon.ToolGate.Requests.{IsOperation, non_owner_bridge_request_allowed_iff}

opened : Unit {0}
unfolding strip after_slash after_segment operation match_path non_owner_bridge_request_allowed
    bridge_tool_allowed
opened = tt

request_tests :
    (non_owner_bridge_request_allowed "POST" (codes "/api/bridge/ana/tasks_list") ≡ true)
    × (non_owner_bridge_request_allowed "PUT" (codes "/api/bridge/ana/tasks_list") ≡ false)
    × (non_owner_bridge_request_allowed "POST" (codes "/api/bridge/ana/tasks_add") ≡ false)
    × (non_owner_bridge_request_allowed "POST" (codes "/api/bridge//tasks_list") ≡ false)
    × (non_owner_bridge_request_allowed "POST" (codes "/api/bridge/ana/x/tasks_list") ≡ false)
    × (bridge_tool_allowed "lock_file" (some ("tasks" ∷ [])) "backend" ≡ false)
    × (bridge_tool_allowed "approve_action" (some []) "backend" ≡ true)
unfolding opened
request_tests = (refl, refl, refl, refl, refl, refl, refl)

abbrev post : String
post = "POST"

abbrev backend : String
backend = "backend"

non_owner_bridge_request_allowed_iff_example :
    (non_owner_bridge_request_allowed post (codes "/api/bridge/ana/tasks_list") ≡ true)
    ↔ (((post ≡ "POST") ⊎ (post ≡ "GET")) × IsOperation (codes "/api/bridge/ana/tasks_list"))
non_owner_bridge_request_allowed_iff_example =
    non_owner_bridge_request_allowed_iff post (codes "/api/bridge/ana/tasks_list")
