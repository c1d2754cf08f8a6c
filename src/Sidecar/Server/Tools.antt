-- ===== src/Sidecar/Server/Tools.antt =====
-- internal/sidecar/server.go: the tools that the server gives to the MCP library. The library is a
-- parameter: a tool that is added takes the place of one of its name, and is called with its handler.
-- Each operation is one step under `configsMu`.
pub mod Registered
pub mod Orphaned
pub mod Genuine
use devagent.Base.{
  String, Bool, ◌≡◌, Option, none, some, List, [], ◌∷◌, str_eq, if◌then◌else◌, lookup, insert,
  remove,
}
use devagent.Model.Capability.{Capability, DeviceConfig}
use devagent.Model.RouteTable.{RouteTable, gateway_maintenance}
use devagent.Mcptool.{string, required, Tool, tool_name, compile_tool}
use devagent.Mcptool.Library.{McpLib}
use devagent.Sidecar.Dedup.{DedupWindow}
use devagent.Sidecar.Progress.{ProgressTracker}
use devagent.Sidecar.Server.{SidecarServer, get_gateway_status}

-- The function that a tool is added with, and what it has captured.
pub data Handler : Type 0 where
  list_devices diagnose get_schema get_job_status : Handler
  device_invoke : String → Capability → Handler

-- A tool of the system with its one parameter, a string that has to be given.
abbrev pub system_tool : String → String → String → Tool
system_tool name description parameter = record {
  name = name;
  description = description;
  parameters = record { name = parameter; kind = string; options = required ∷ [] } ∷ [];
}

module _ (lib : McpLib Handler) (A : Type 0) where
  -- The server with its `mcpServer`.
  pub record ToolServer : Type 0 where
    pub core : SidecarServer A
    pub mcp_server : lib.Server

  unfoldable pub new_sidecar_server : RouteTable → DedupWindow → ProgressTracker A → ToolServer
  new_sidecar_server rt dedup progress = record {
    core = record { route_table = rt; dedup = dedup; progress = progress; configs = [] };
    mcp_server =
        lib.add_tool (system_tool "__system__.get_job_status" "查询异步任务状态" "job_id") get_job_status (
          lib.add_tool (system_tool "__system__.get_device_schema" "获取指定设备的完整能力描述" "device_id")
            get_schema
            (lib.add_tool
              (system_tool "__system__.diagnose_connectivity" "检查到指定设备的全链路状态" "device_id") diagnose
              (lib.add_tool
                (record {
                  name = "__system__.list_devices";
                  description = "列出所有已注册设备及状态";
                  parameters = [];
                })
                list_devices lib.new_mcp_server)));
  }

  -- `for _, cap := range cfg.Capabilities { … AddTool(…) }`
  unfoldable pub add_tools : String → Bool → List Capability → lib.Server → lib.Server
  add_tools device_id maintenance [] mcp = mcp
  add_tools device_id maintenance (capability ∷ rest) mcp = add_tools device_id maintenance rest (
      lib.add_tool (compile_tool device_id capability maintenance)
        (device_invoke device_id capability) mcp)

  unfoldable pub register_device_tools : DeviceConfig → ToolServer → ToolServer
  unfolding add_tools
  register_device_tools cfg s =
      let maintenance = str_eq (get_gateway_status A cfg.device.id s.core) gateway_maintenance in
      record {
        core = record s.core { configs = insert cfg.device.id cfg s.core.configs };
        mcp_server = add_tools cfg.device.id maintenance cfg.capabilities s.mcp_server;
      }

  -- `for _, cap := range cfg.Capabilities { … DeleteTools(toolName) }`
  unfoldable pub delete_tools : String → List Capability → lib.Server → lib.Server
  delete_tools device_id [] mcp = mcp
  delete_tools device_id (capability ∷ rest) mcp =
      delete_tools device_id rest (lib.delete_tool (tool_name device_id capability.name) mcp)

  unfoldable pub unregister_device_tools : String → ToolServer → ToolServer
  unfolding delete_tools
  unregister_device_tools device_id s = elim (lookup device_id s.core.configs) [
    | none ↦ s
    | some cfg ↦ record {
      core = record s.core { configs = remove device_id s.core.configs };
      mcp_server = delete_tools device_id cfg.capabilities s.mcp_server;
    }
  ]

  unfoldable pub refresh_device_tools : String → ToolServer → ToolServer
  unfolding register_device_tools
  refresh_device_tools device_id s = elim (lookup device_id s.core.configs) [
    | none ↦ s
    | some cfg ↦ register_device_tools cfg s
  ]
