-- ===== src/Tests/Tools.antt =====
-- internal/sidecar/server_test.go on the tools, and instances of the theorems on the MCP server's tools, on
-- the diagnosis and on the sidecar's start.
use devagent.Base.{
  ℕ, ◌≡◌, refl, pos, true, false, Option, none, some, String, List, [], ◌∷◌, inl, lookup, insert,
  remove,
}
use devagent.Config.{StaticGateway}
use devagent.Model.Capability.{DeviceConfig}
use devagent.Model.RouteTable.{GatewayMeta, new_route_table, lookup_device, all_devices}
use devagent.Model.RouteTable.Routes.{Operation, register_op}
use devagent.Mcptool.{Tool, tool_name, compile_tool}
use devagent.Sidecar.Dedup.{new_dedup_window}
use devagent.Sidecar.Server.{get_gateway_status, status_of}
use devagent.Sidecar.Server.Tools.{
  Handler, ToolServer, new_sidecar_server, register_device_tools, unregister_device_tools,
  refresh_device_tools,
}
use devagent.Sidecar.Server.Tools.Registered.{
  last_named, entry_of, entry_or, unless_named, in_maintenance, tool_at-register_device_tools,
}
use devagent.Sidecar.Server.Tools.Genuine.{IsGenuine, started, registered, reachable-IsGenuine}
use devagent.Sidecar.Server.Diagnose.{Probe, answered}
use devagent.Command.Main.{add_gateway}
use devagent.Command.Main.Callable.{add_gateway-IsGenuine}
use devagent.Tests.Libraries.{mcp_lib}
use devagent.Tests.Daemon.{set_led, shelf}

abbrev ToolState : Type 0
ToolState = ToolServer (mcp_lib Handler) ℕ

abbrev fresh : ToolState
fresh = new_sidecar_server (mcp_lib Handler) ℕ new_route_table (new_dedup_window 3000) []

-- The shelf after its capability has gone.
abbrev bare_shelf : DeviceConfig
bare_shelf = record shelf { capabilities = [] }

abbrev with_shelf : ToolState
with_shelf = register_device_tools (mcp_lib Handler) ℕ shelf fresh

program : Unit {0}
unfolding register_device_tools unregister_device_tools refresh_device_tools new_sidecar_server
    get_gateway_status status_of all_devices lookup insert remove tool_name compile_tool
program = tt

abbrev led_entry : Tool × Handler
led_entry = entry_of "shelf_01" false set_led

registered_tool :
    ((mcp_lib Handler).tool_at "shelf_01.set_led" with_shelf.mcp_server ≡ some led_entry)
    × ((mcp_lib Handler).tool_at "shelf_01.set_led"
          (unregister_device_tools (mcp_lib Handler) ℕ "shelf_01" with_shelf).mcp_server
        ≡ none)
unfolding program
registered_tool = (refl, refl)

tool_at-register_device_tools_example :
    let named = last_named "shelf_01" "shelf_01.set_led" shelf.capabilities in
    let tools = mcp_lib Handler in
    (tools.tool_at "shelf_01.set_led" (register_device_tools tools ℕ shelf fresh).mcp_server
      ≡ entry_or "shelf_01"
          (in_maintenance tools ℕ "shelf_01" fresh)
          (tools.tool_at "shelf_01.set_led" fresh.mcp_server)
          named)
    × (tools.tool_at "shelf_01.set_led"
          (refresh_device_tools tools ℕ "shelf_01" with_shelf).mcp_server
        ≡ entry_or "shelf_01"
            (in_maintenance tools ℕ "shelf_01" with_shelf)
            (tools.tool_at "shelf_01.set_led" fresh.mcp_server)
            named)
    × (tools.tool_at "shelf_01.set_led"
          (unregister_device_tools tools ℕ "shelf_01" with_shelf).mcp_server
        ≡ unless_named (tools.tool_at "shelf_01.set_led" fresh.mcp_server) named)
    × (lookup "shelf_01" (unregister_device_tools tools ℕ "shelf_01" with_shelf).core.configs
        ≡ none)
tool_at-register_device_tools_example =
    tool_at-register_device_tools (mcp_lib Handler) ℕ shelf fresh with_shelf "shelf_01.set_led" refl
      refl

reachable-IsGenuine_example : IsGenuine "shelf_01.set_led" led_entry
unfolding program
reachable-IsGenuine_example =
    reachable-IsGenuine (mcp_lib Handler) ℕ with_shelf "shelf_01.set_led" led_entry
      (registered shelf fresh (started new_route_table (new_dedup_window 3000) [])) refl

abbrev static_gateway : StaticGateway
static_gateway = record { id = "gw_9"; url = "http://localhost:8080" }

abbrev daemon_answer : String → Option (List DeviceConfig)
daemon_answer url = some (shelf ∷ [])

add_gateway-IsGenuine_example :
    let after =
      add_gateway (mcp_lib Handler) ℕ daemon_answer (λ id. 101) 100 static_gateway fresh in
    (entry : Tool × Handler) × ((mcp_lib Handler).tool_at
        (tool_name "shelf_01" "set_led")
        after.mcp_server
      ≡ some entry)
    × IsGenuine (tool_name "shelf_01" "set_led") entry
    × (lookup_device "shelf_01" after.core.route_table ≡ some "http://localhost:8080")
unfolding new_sidecar_server lookup
add_gateway-IsGenuine_example =
    add_gateway-IsGenuine (mcp_lib Handler) ℕ daemon_answer (λ id. 101) 100 static_gateway fresh
      (shelf ∷ []) shelf set_led (started new_route_table (new_dedup_window 3000) []) refl refl
      (inl refl) (inl refl)

abbrev gateway : GatewayMeta
gateway = record {
  id = "gw_1";
  url = "http://gw1:8080";
  devices = "shelf_01" ∷ [];
  last_heartbeat = 0;
  status = "";
}

abbrev known_gateway : GatewayMeta
known_gateway = record gateway { last_heartbeat = 100; status = "online" }

abbrev ops : List Operation
ops = register_op gateway 100 ∷ []

abbrev ready_probe : String → Option (List ℕ) → Probe
ready_probe url header = answered (record { serial_connected = true; device_count = pos 1 })
