-- ===== src/Command/Main/Callable.antt =====
-- What a static gateway gives the sidecar: tools that can be called, and routes for the calls.
use devagent.Base.{
  ℕ, ◌≡◌, refl, ap, ◌∙◌, String, Bool, true, false, Option, none, some, List, [], ◌∷◌, map, arith,
  str_eq, eq_refl, In, ◌⊎◌, inl, inr, lookup,
}
use devagent.Config.{StaticGateway}
use devagent.Model.Capability.{Capability, DeviceConfig}
use devagent.Model.RouteTable.{GatewayMeta, register, add_device, lookup_device}
use devagent.Mcptool.{Tool, tool_name}
use devagent.Sidecar.Forward.{add_all, fetch_and_register_devices, add_static_gateway}
use devagent.Sidecar.Forward.Discovery.{lookup_device-add_static_gateway}
use devagent.Mcptool.Library.{McpLib}
use devagent.Sidecar.Server.Tools.{Handler, ToolServer, register_device_tools}
use devagent.Sidecar.Server.Tools.Registered.{
  last_named, or_this, entry_or, in_maintenance, tool_at-register_device_tools,
}
use devagent.Sidecar.Server.Tools.Genuine.{IsGenuine, Reach, registered, moved, reachable-IsGenuine}
use devagent.Command.Main.{with_routes, discover_all, add_gateway}

In-map :
    (cfg : DeviceConfig) (cfgs : List DeviceConfig)
    → In cfg cfgs
    → In cfg.device.id (map (λ c. c.device.id) cfgs)
In-map cfg [] m = absurd m
In-map cfg (first ∷ cfgs) (inl same) = inl (ap (λ (c : DeviceConfig). c.device.id) same)
In-map cfg (first ∷ cfgs) (inr m) = inr (In-map cfg cfgs m)

or_this-fits :
    (fits : Bool) (capability : Capability) (later : Option Capability)
    → fits ≡ true
    → (c : Capability) × (or_this fits capability later ≡ some c)
or_this-fits true capability none e = (capability, refl)
or_this-fits false capability none e = absurd (ground arith)
or_this-fits fits capability (some d) e = (d, refl)

last_named-found :
    (device_id : String) (capabilities : List Capability) (capability : Capability)
    → In capability capabilities
    → (c : Capability) × (last_named device_id (tool_name device_id capability.name) capabilities
        ≡ some c)
last_named-found device_id [] capability m = absurd m
last_named-found device_id (first ∷ rest) capability (inl same) =
    or_this-fits (str_eq (tool_name device_id first.name) (tool_name device_id capability.name))
      first (last_named device_id (tool_name device_id capability.name) rest)
      (ap
          (λ (c : Capability).
            str_eq (tool_name device_id c.name) (tool_name device_id capability.name))
          same
        ∙ eq_refl (tool_name device_id capability.name))
last_named-found device_id (first ∷ rest) capability (inr m) =
    let (c, found) = last_named-found device_id rest capability m in
    (
      c,
      ap
          (or_this (str_eq (tool_name device_id first.name) (tool_name device_id capability.name))
            first)
          found,
    )

module _ (lib : McpLib Handler) (A : Type 0) where
  -- There is a tool of this name.
  abbrev pub HasTool : String → ToolServer lib A → Type 0
  HasTool name s = (entry : Tool × Handler) × (lib.tool_at name s.mcp_server ≡ some entry)

  entry_or-some :
      (device_id : String) (maintenance : Bool) (other : Option (Tool × Handler))
      (named : Option Capability)
      → ((e : Tool × Handler) × (other ≡ some e)) ⊎ ((c : Capability) × (named ≡ some c))
      → (e : Tool × Handler) × (entry_or device_id maintenance other named ≡ some e)
  entry_or-some device_id maintenance other none (inl (e, same)) = (e, same)
  entry_or-some device_id maintenance other none (inr (c, same)) = absurd (ground arith)
  entry_or-some device_id maintenance other (some c) h = (_, refl)

  register_device_tools-HasTool :
      (cfg : DeviceConfig) (name : String) (s : ToolServer lib A)
      → HasTool name s
        ⊎ ((c : Capability) × (last_named cfg.device.id name cfg.capabilities ≡ some c))
      → HasTool name (register_device_tools lib A cfg s)
  register_device_tools-HasTool cfg name s h =
      let added =
        (tool_at-register_device_tools lib A cfg s (register_device_tools lib A cfg s) name refl
          refl).0 in
      let (e, same) =
        entry_or-some cfg.device.id (in_maintenance lib A cfg.device.id s)
          (lib.tool_at name s.mcp_server) (last_named cfg.device.id name cfg.capabilities) h in
      (e, added ∙ same)

  discover_all-keeps :
      (clock : String → ℕ) (gw_id name : String) (cfgs : List DeviceConfig) (s : ToolServer lib A)
      → HasTool name s
      → HasTool name (discover_all lib A clock gw_id cfgs s)
  unfolding discover_all
  discover_all-keeps clock gw_id name [] s h = h
  discover_all-keeps clock gw_id name (cfg ∷ cfgs) s h =
      discover_all-keeps clock gw_id name cfgs _ (register_device_tools-HasTool cfg name s (inl h))

  discover_all-HasTool :
      (clock : String → ℕ) (gw_id : String) (cfgs : List DeviceConfig) (s : ToolServer lib A)
      (cfg : DeviceConfig) (capability : Capability)
      → In cfg cfgs
      → In capability cfg.capabilities
      → HasTool (tool_name cfg.device.id capability.name) (discover_all lib A clock gw_id cfgs s)
  unfolding discover_all
  discover_all-HasTool clock gw_id [] s cfg capability m n = absurd m
  discover_all-HasTool clock gw_id (first ∷ cfgs) s cfg capability (inl same) n =
      discover_all-keeps clock gw_id (tool_name cfg.device.id capability.name) cfgs _ (
        register_device_tools-HasTool first (tool_name cfg.device.id capability.name) s
          (inr (rw same (last_named-found cfg.device.id cfg.capabilities capability n))))
  discover_all-HasTool clock gw_id (first ∷ cfgs) s cfg capability (inr m) n =
      discover_all-HasTool clock gw_id cfgs _ cfg capability m n

  discover_all-table :
      (clock : String → ℕ) (gw_id : String) (cfgs : List DeviceConfig) (s : ToolServer lib A)
      → (discover_all lib A clock gw_id cfgs s).core.route_table
        ≡ add_all clock gw_id cfgs s.core.route_table
  unfolding discover_all add_all register_device_tools
  discover_all-table clock gw_id [] s = refl
  discover_all-table clock gw_id (cfg ∷ cfgs) s = discover_all-table clock gw_id cfgs (
      with_routes lib A (add_device gw_id cfg.device.id (clock cfg.device.id))
        (register_device_tools lib A cfg s))

  discover_all-Reach :
      (clock : String → ℕ) (gw_id : String) (cfgs : List DeviceConfig) (s : ToolServer lib A)
      → Reach lib A s
      → Reach lib A (discover_all lib A clock gw_id cfgs s)
  unfolding discover_all
  discover_all-Reach clock gw_id [] s r = r
  discover_all-Reach clock gw_id (cfg ∷ cfgs) s r =
      discover_all-Reach clock gw_id cfgs _ (moved _ _ refl (registered cfg s r))

  -- A static gateway that is not yet known and answers is of use at once: for each capability of each
  -- device in its answer there is a tool under that name, which calls what its name says, and a call
  -- for the device is routed to the gateway's URL. The server may be in any state that it can reach.
  pub add_gateway-IsGenuine :
      (fetch : String → Option (List DeviceConfig)) (clock : String → ℕ) (now : ℕ)
      (gw : StaticGateway) (s : ToolServer lib A) (cfgs : List DeviceConfig) (cfg : DeviceConfig)
      (capability : Capability)
      → Reach lib A s
      → lookup gw.id s.core.route_table.gateways ≡ none
      → fetch gw.url ≡ some cfgs
      → In cfg cfgs
      → In capability cfg.capabilities
      → let name = tool_name cfg.device.id capability.name in
        let after = add_gateway lib A fetch clock now gw s in
        (entry : Tool × Handler) × (lib.tool_at name after.mcp_server ≡ some entry)
        × IsGenuine name entry
        × (lookup_device cfg.device.id after.core.route_table ≡ some gw.url)
  unfolding add_gateway add_static_gateway fetch_and_register_devices
  add_gateway-IsGenuine fetch clock now gw s cfgs cfg capability r new answer listed offered =
      let gateway : GatewayMeta = record {
        id = gw.id;
        url = gw.url;
        devices = [];
        last_heartbeat = 0;
        status = "";
      } in
      let name = tool_name cfg.device.id capability.name in
      let known = with_routes lib A (register gateway now) s in
      let after = discover_all lib A clock gw.id cfgs known in
      let same : add_gateway lib A fetch clock now gw s ≡ after = rw (add_gateway, answer) refl in
      let (entry, there) =
        discover_all-HasTool clock gw.id cfgs known cfg capability listed offered in
      let reached = discover_all-Reach clock gw.id cfgs known (moved _ s refl r) in
      let routed : lookup_device cfg.device.id
            (add_all clock gw.id cfgs (register gateway now s.core.route_table))
          ≡ some gw.url =
        rw (add_static_gateway, fetch_and_register_devices, answer) at
          (lookup_device-add_static_gateway fetch clock gw.id gw.url now s.core.route_table cfgs
            cfg.device.id new answer (In-map cfg cfgs listed)) in
      (
        entry,
        ap (λ (t : ToolServer lib A). lib.tool_at name t.mcp_server) same ∙ there,
        reachable-IsGenuine lib A after name entry reached there,
        ap (λ (t : ToolServer lib A). lookup_device cfg.device.id t.core.route_table) same
            ∙ ap (lookup_device cfg.device.id) (discover_all-table clock gw.id cfgs known)
            ∙ routed,
      )
