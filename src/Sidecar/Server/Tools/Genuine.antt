-- ===== src/Sidecar/Server/Tools/Genuine.antt =====
-- What a tool of the MCP server calls, in every state that the server can reach.
use mathlib.Core.Path.{subst}
use devagent.Base.{
  String, Bool, ◌≡◌, refl, sym, ◌∙◌, ◌⊎◌, inl, inr, Option, none, some, List, [], ◌∷◌, arith,
  str_eq, Option-cases, eq_iff, if◌then◌else◌, true, false, lookup,
}
use devagent.Model.Capability.{Capability, DeviceConfig}
use devagent.Model.RouteTable.{RouteTable}
use devagent.Mcptool.{Tool, tool_name, compile_tool}
use devagent.Sidecar.Dedup.{DedupWindow}
use devagent.Sidecar.Progress.{ProgressTracker}
use devagent.Sidecar.Server.{SidecarServer}
use devagent.Mcptool.Library.{McpLib}
use devagent.Sidecar.Server.Tools.{
  Handler, list_devices, diagnose, get_schema, get_job_status, device_invoke, ToolServer,
  new_sidecar_server, add_tools, delete_tools, register_device_tools, unregister_device_tools,
  refresh_device_tools,
}

-- A handler of the system, under a name of the system; or the handler of a capability of a device, under
-- the name of that capability of that device and with the tool that it is compiled to.
abbrev pub IsGenuine : String → Tool × Handler → Type 0
IsGenuine name (tool, device_invoke device_id capability) =
    (tool_name device_id capability.name ≡ name)
    × ((maintenance : Bool) × (tool ≡ compile_tool device_id capability maintenance))
IsGenuine name (tool, list_devices) = name ≡ "__system__.list_devices"
IsGenuine name (tool, diagnose) = name ≡ "__system__.diagnose_connectivity"
IsGenuine name (tool, get_schema) = name ≡ "__system__.get_device_schema"
IsGenuine name (tool, get_job_status) = name ≡ "__system__.get_job_status"

module _ (lib : McpLib Handler) (A : Type 0) where
  -- The states of the server: what the routes, the window and the jobs do in between is left open.
  pub data Reach : ToolServer lib A → Type 1 where
    started :
        (rt : RouteTable) (dedup : DedupWindow) (progress : ProgressTracker A)
        → Reach (new_sidecar_server lib A rt dedup progress)
    registered :
        (cfg : DeviceConfig) (s : ToolServer lib A)
        → Reach s
        → Reach (register_device_tools lib A cfg s)
    refreshed :
        (device_id : String) (s : ToolServer lib A)
        → Reach s
        → Reach (refresh_device_tools lib A device_id s)
    unregistered :
        (device_id : String) (s : ToolServer lib A)
        → Reach s
        → Reach (unregister_device_tools lib A device_id s)
    moved :
        (core : SidecarServer A) (s : ToolServer lib A)
        → core.configs ≡ s.core.configs
        → Reach s
        → Reach (record s { core = core })

  -- Every tool is genuine.
  record AllGenuine (mcp : lib.Server) : Type 0 where
    each :
        (name : String) (entry : Tool × Handler)
        → lib.tool_at name mcp ≡ some entry
        → IsGenuine name entry

  either_entry :
      (fits : Bool) (entry entry' : Tool × Handler) (other : Option (Tool × Handler))
      → (if fits then some entry else other) ≡ some entry'
      → ((fits ≡ true) × (entry ≡ entry')) ⊎ (other ≡ some entry')
  either_entry true entry entry' other h = inl (refl, ground arith)
  either_entry false entry entry' other h = inr h

  add_tool-AllGenuine :
      (tool : Tool) (handler : Handler) (mcp : lib.Server)
      → IsGenuine tool.name (tool, handler)
      → AllGenuine mcp
      → AllGenuine (lib.add_tool tool handler mcp)
  add_tool-AllGenuine tool handler mcp genuine all = record {
    each = λ name entry found.
        elim (either_entry (str_eq tool.name name) (tool, handler) entry (lib.tool_at name mcp)
          (sym (lib.tool_at-add_tool name tool handler mcp) ∙ found)) [
            | inl (fits, same) ↦
                let named : tool.name ≡ name = ground (arith, eq_iff tool.name name) in
                subst (IsGenuine name) same (subst (λ n. IsGenuine n (tool, handler)) named genuine)
            | inr old ↦ all.each name entry old
          ];
  }

  unless_deleted :
      (fits : Bool) (entry : Tool × Handler) (other : Option (Tool × Handler))
      → (if fits then none else other) ≡ some entry
      → other ≡ some entry
  unless_deleted true entry other h = absurd (ground arith)
  unless_deleted false entry other h = h

  delete_tools-AllGenuine :
      (device_id : String) (capabilities : List Capability) (mcp : lib.Server)
      → AllGenuine mcp
      → AllGenuine (delete_tools lib A device_id capabilities mcp)
  unfolding delete_tools
  delete_tools-AllGenuine device_id [] mcp all = all
  delete_tools-AllGenuine device_id (capability ∷ rest) mcp all =
      let gone = tool_name device_id capability.name in
      delete_tools-AllGenuine device_id rest (lib.delete_tool gone mcp) (record {
        each = λ name entry found. all.each name entry (
            unless_deleted (str_eq gone name) entry (lib.tool_at name mcp)
              (sym (lib.tool_at-delete_tool name gone mcp) ∙ found));
      })

  add_tools-AllGenuine :
      (device_id : String) (maintenance : Bool) (capabilities : List Capability) (mcp : lib.Server)
      → AllGenuine mcp
      → AllGenuine (add_tools lib A device_id maintenance capabilities mcp)
  unfolding add_tools compile_tool
  add_tools-AllGenuine device_id maintenance [] mcp all = all
  add_tools-AllGenuine device_id maintenance (capability ∷ rest) mcp all =
      let tool = compile_tool device_id capability maintenance in
      let handler = device_invoke device_id capability in
      add_tools-AllGenuine device_id maintenance rest (lib.add_tool tool handler mcp)
        (add_tool-AllGenuine tool handler mcp (refl, (maintenance, refl)) all)

  new_sidecar_server-AllGenuine :
      (rt : RouteTable) (dedup : DedupWindow) (progress : ProgressTracker A)
      → AllGenuine (new_sidecar_server lib A rt dedup progress).mcp_server
  unfolding new_sidecar_server
  new_sidecar_server-AllGenuine rt dedup progress = add_tool-AllGenuine _ get_job_status _ refl (
      add_tool-AllGenuine _ get_schema _ refl (
        add_tool-AllGenuine _ diagnose _ refl (
          add_tool-AllGenuine _ list_devices _ refl (record {
            each = λ name entry found.
                let nothing = lib.tool_at-new_mcp_server name in absurd (ground arith);
          }))))

  register_device_tools-AllGenuine :
      (cfg : DeviceConfig) (s : ToolServer lib A)
      → AllGenuine s.mcp_server
      → AllGenuine (register_device_tools lib A cfg s).mcp_server
  unfolding register_device_tools
  register_device_tools-AllGenuine cfg s all =
      add_tools-AllGenuine cfg.device.id _ cfg.capabilities s.mcp_server all

  reach-AllGenuine : (s : ToolServer lib A) → Reach s → AllGenuine s.mcp_server
  unfolding refresh_device_tools unregister_device_tools
  reach-AllGenuine _ (started rt dedup progress) = new_sidecar_server-AllGenuine rt dedup progress
  reach-AllGenuine _ (registered cfg s r) =
      register_device_tools-AllGenuine cfg s (reach-AllGenuine s r)
  reach-AllGenuine _ (refreshed device_id s r) =
      let ih = reach-AllGenuine s r in
      elim (Option-cases (lookup device_id s.core.configs)) [
        | inl unknown ↦ rw (refresh_device_tools, unknown) ih
        | inr (cfg, known) ↦
            rw (refresh_device_tools, known) (register_device_tools-AllGenuine cfg s ih)
      ]
  reach-AllGenuine _ (unregistered device_id s r) =
      let ih = reach-AllGenuine s r in
      elim (Option-cases (lookup device_id s.core.configs)) [
        | inl unknown ↦ rw (unregister_device_tools, unknown) ih
        | inr (cfg, known) ↦
            rw (unregister_device_tools, known)
              (delete_tools-AllGenuine device_id cfg.capabilities s.mcp_server ih)
      ]
  reach-AllGenuine _ (moved core s same r) = reach-AllGenuine s r

  -- In every state that the server can reach by registering, refreshing and unregistering devices in
  -- any order, whatever happens to its other parts in between, a tool calls what its name says: a
  -- tool with a device's handler has the name of that device's capability and is what that
  -- capability compiles to, and a tool with a handler of the system has that handler's name.
  pub reachable-IsGenuine :
      (s : ToolServer lib A) (name : String) (entry : Tool × Handler)
      → Reach s
      → lib.tool_at name s.mcp_server ≡ some entry
      → IsGenuine name entry
  reachable-IsGenuine s name entry r found = (reach-AllGenuine s r).each name entry found
