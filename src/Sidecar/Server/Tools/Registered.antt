-- ===== src/Sidecar/Server/Tools/Registered.antt =====
-- Which tools the MCP server has after a device is registered, refreshed and unregistered.
use devagent.Base.{
  String, Bool, true, false, ◌≡◌, refl, ap, ◌∙◌, Option, none, some, List, [], ◌∷◌, str_eq, eq_refl,
  if◌then◌else◌, lookup, lookup-insert, lookup-remove,
}
use devagent.Model.Capability.{Capability, DeviceConfig}
use devagent.Model.RouteTable.{gateway_maintenance}
use devagent.Mcptool.{Tool, tool_name, compile_tool}
use devagent.Sidecar.Server.{get_gateway_status}
use devagent.Mcptool.Library.{McpLib}
use devagent.Sidecar.Server.Tools.{
  Handler, device_invoke, ToolServer, add_tools, delete_tools, register_device_tools,
  unregister_device_tools, refresh_device_tools,
}

abbrev pub or_this : Bool → Capability → Option Capability → Option Capability
or_this fits capability (some later) = some later
or_this true capability none = some capability
or_this false capability none = none

-- The last of a device's capabilities whose tool has this name.
abbrev pub last_named : String → String → List Capability → Option Capability
last_named device_id name [] = none
last_named device_id name (capability ∷ rest) =
    or_this (str_eq (tool_name device_id capability.name) name) capability
      (last_named device_id name rest)

-- The tool and the handler that a capability is added with.
abbrev pub entry_of : String → Bool → Capability → Tool × Handler
entry_of device_id maintenance capability =
    (compile_tool device_id capability maintenance, device_invoke device_id capability)

abbrev pub entry_or :
    String → Bool → Option (Tool × Handler) → Option Capability → Option (Tool × Handler)
entry_or device_id maintenance other none = other
entry_or device_id maintenance other (some capability) =
    some (entry_of device_id maintenance capability)

abbrev pub unless_named : Option (Tool × Handler) → Option Capability → Option (Tool × Handler)
unless_named other none = other
unless_named other (some capability) = none

entry_or-step :
    (device_id : String) (maintenance fits : Bool) (capability : Capability)
    (other : Option (Tool × Handler)) (later : Option Capability)
    → entry_or device_id maintenance
        (if fits then some (entry_of device_id maintenance capability) else other)
        later
      ≡ entry_or device_id maintenance other (or_this fits capability later)
entry_or-step device_id maintenance fits capability other (some later) = refl
entry_or-step device_id maintenance true capability other none = refl
entry_or-step device_id maintenance false capability other none = refl

unless_named-step :
    (fits : Bool) (capability : Capability) (other : Option (Tool × Handler))
    (later : Option Capability)
    → unless_named (if fits then none else other) later
      ≡ unless_named other (or_this fits capability later)
unless_named-step fits capability other (some later) = refl
unless_named-step true capability other none = refl
unless_named-step false capability other none = refl

module _ (lib : McpLib Handler) (A : Type 0) where
  tool_at-add_tools :
      (device_id : String) (maintenance : Bool) (capabilities : List Capability) (mcp : lib.Server)
      (name : String)
      → lib.tool_at name (add_tools lib A device_id maintenance capabilities mcp)
        ≡ entry_or device_id maintenance
            (lib.tool_at name mcp)
            (last_named device_id name capabilities)
  unfolding add_tools compile_tool
  tool_at-add_tools device_id maintenance [] mcp name = refl
  tool_at-add_tools device_id maintenance (capability ∷ rest) mcp name =
      let tool = compile_tool device_id capability maintenance in
      let handler = device_invoke device_id capability in
      tool_at-add_tools device_id maintenance rest (lib.add_tool tool handler mcp) name
      ∙ ap (λ o. entry_or device_id maintenance o (last_named device_id name rest))
          (lib.tool_at-add_tool name tool handler mcp)
      ∙ entry_or-step device_id maintenance (str_eq tool.name name) capability
          (lib.tool_at name mcp) (last_named device_id name rest)

  tool_at-delete_tools :
      (device_id : String) (capabilities : List Capability) (mcp : lib.Server) (name : String)
      → lib.tool_at name (delete_tools lib A device_id capabilities mcp)
        ≡ unless_named (lib.tool_at name mcp) (last_named device_id name capabilities)
  unfolding delete_tools
  tool_at-delete_tools device_id [] mcp name = refl
  tool_at-delete_tools device_id (capability ∷ rest) mcp name =
      tool_at-delete_tools device_id rest
        (lib.delete_tool (tool_name device_id capability.name) mcp) name
      ∙ ap (λ o. unless_named o (last_named device_id name rest))
          (lib.tool_at-delete_tool name (tool_name device_id capability.name) mcp)
      ∙ unless_named-step (str_eq (tool_name device_id capability.name) name) capability
          (lib.tool_at name mcp) (last_named device_id name rest)

  unless-entry :
      (device_id : String) (maintenance : Bool) (other : Option (Tool × Handler))
      (named : Option Capability)
      → unless_named (entry_or device_id maintenance other named) named ≡ unless_named other named
  unless-entry device_id maintenance other none = refl
  unless-entry device_id maintenance other (some capability) = refl

  entry-entry :
      (device_id : String) (before after : Bool) (other : Option (Tool × Handler))
      (named : Option Capability)
      → entry_or device_id after (entry_or device_id before other named) named
        ≡ entry_or device_id after other named
  entry-entry device_id before after other none = refl
  entry-entry device_id before after other (some capability) = refl

  abbrev pub in_maintenance : String → ToolServer lib A → Bool
  in_maintenance device_id s = str_eq (get_gateway_status A device_id s.core) gateway_maintenance

  -- After a device is registered, a name stands for the last of the device's capabilities whose tool
  -- has the name, compiled for the gateway's status at that time; every other name stands for what it
  -- stood for before. A refresh after that, with whatever routes there are then, compiles them again for
  -- the status of then. Unregistering the device takes all of its tools away and no other one, and
  -- forgets its configuration.
  pub tool_at-register_device_tools :
      (cfg : DeviceConfig) (s s' : ToolServer lib A) (name : String)
      → s'.core.configs ≡ (register_device_tools lib A cfg s).core.configs
      → s'.mcp_server ≡ (register_device_tools lib A cfg s).mcp_server
      → let device_id = cfg.device.id in
        let named = last_named device_id name cfg.capabilities in
        (lib.tool_at name (register_device_tools lib A cfg s).mcp_server
          ≡ entry_or device_id (in_maintenance device_id s) (lib.tool_at name s.mcp_server) named)
        × (lib.tool_at name (refresh_device_tools lib A device_id s').mcp_server
            ≡ entry_or device_id
                (in_maintenance device_id s')
                (lib.tool_at name s.mcp_server)
                named)
        × (lib.tool_at name (unregister_device_tools lib A device_id s').mcp_server
            ≡ unless_named (lib.tool_at name s.mcp_server) named)
        × (lookup device_id (unregister_device_tools lib A device_id s').core.configs ≡ none)
  unfolding register_device_tools unregister_device_tools refresh_device_tools
  tool_at-register_device_tools cfg s s' name same_configs same_tools =
      let device_id = cfg.device.id in
      let named = last_named device_id name cfg.capabilities in
      let before = in_maintenance device_id s in
      let after = in_maintenance device_id s' in
      let added = tool_at-add_tools device_id before cfg.capabilities s.mcp_server name in
      let standing : lib.tool_at name s'.mcp_server
          ≡ entry_or device_id before (lib.tool_at name s.mcp_server) named =
        ap (lib.tool_at name) same_tools ∙ added in
      let kept : lookup device_id s'.core.configs ≡ some cfg =
        ap (lookup device_id) same_configs ∙ rw (lookup-insert, eq_refl) refl in
      (
        added,
        rw (refresh_device_tools, register_device_tools, kept)
            (tool_at-add_tools device_id after cfg.capabilities s'.mcp_server name
              ∙ ap (λ o. entry_or device_id after o named) standing
              ∙ entry-entry device_id before after (lib.tool_at name s.mcp_server) named),
        rw (unregister_device_tools, kept)
            (tool_at-delete_tools device_id cfg.capabilities s'.mcp_server name
              ∙ ap (λ o. unless_named o named) standing
              ∙ unless-entry device_id before (lib.tool_at name s.mcp_server) named),
        rw (unregister_device_tools, kept, lookup-remove, eq_refl) refl,
      )
