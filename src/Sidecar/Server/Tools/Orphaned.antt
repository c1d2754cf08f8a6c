-- ===== src/Sidecar/Server/Tools/Orphaned.antt =====
-- What stays of a device whose configuration has lost a capability.
use devagent.Base.{String, ◌≡◌, refl, ap, ◌∙◌, sym, some, none}
use devagent.Model.Capability.{Capability, DeviceConfig}
use devagent.Mcptool.Library.{McpLib}
use devagent.Sidecar.Server.Tools.{
  Handler, ToolServer, register_device_tools, unregister_device_tools,
}
use devagent.Sidecar.Server.Tools.Registered.{
  last_named, entry_of, entry_or, unless_named, in_maintenance, tool_at-register_device_tools,
}

-- A device is registered, then registered again with a configuration that has lost a capability, then
-- unregistered: the tool of the lost capability is still there, with the handler that calls the device.
pub tool_at-register_device_tools-orphaned :
    (lib : McpLib Handler) (A : Type 0) (first second : DeviceConfig) (lost : Capability)
    (name : String) (s : ToolServer lib A)
    → second.device.id ≡ first.device.id
    → last_named first.device.id name first.capabilities ≡ some lost
    → last_named second.device.id name second.capabilities ≡ none
    → lib.tool_at name
        (unregister_device_tools lib A first.device.id
          (register_device_tools lib A second (register_device_tools lib A first s))).mcp_server
      ≡ some (entry_of first.device.id (in_maintenance lib A first.device.id s) lost)
tool_at-register_device_tools-orphaned lib A first second lost name s same had gone =
    let one = register_device_tools lib A first s in
    let two = register_device_tools lib A second one in
    let dropped = (tool_at-register_device_tools lib A second one two name refl refl).2 in
    let held = (tool_at-register_device_tools lib A first s one name refl refl).0 in
    ap (λ id. lib.tool_at name (unregister_device_tools lib A id two).mcp_server) (sym same)
    ∙ dropped
    ∙ ap (unless_named (lib.tool_at name one.mcp_server)) gone
    ∙ held
    ∙ ap
        (entry_or first.device.id (in_maintenance lib A first.device.id s)
          (lib.tool_at name s.mcp_server))
        had
