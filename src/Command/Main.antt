-- ===== src/Command/Main.antt =====
-- cmd/devagent/main.go: the parts of a sidecar put together. The network and the clock are parameters,
-- as in `Sidecar.Forward`; `main` reads its flags with the library. What starts goroutines, serves and
-- logs is left out.
pub mod Callable
use devagent.Base.{
  ℕ, String, Bool, true, false, ◌||◌, Option, none, some, List, [], ◌∷◌, str_eq, if◌then◌else◌,
}
use devagent.Config.{StaticGateway}
use devagent.Model.Capability.{DeviceConfig}
use devagent.Model.RouteTable.{
  RouteTable, new_route_table, register, add_device, devices_by_gateway, gateway_maintenance,
  gateway_online,
}
use devagent.Sidecar.Dedup.{DedupWindow}
use devagent.Sidecar.Progress.{ProgressTracker}
use devagent.Mcptool.Library.{McpLib}
use devagent.Sidecar.Server.Tools.{
  Handler, ToolServer, new_sidecar_server, register_device_tools, unregister_device_tools,
  refresh_device_tools,
}

pub data Level : Type 0 where
  debug info warn error : Level

-- `initLogger`
unfoldable pub level_of : String → Level
level_of level =
    if str_eq level "debug"
    then debug
    else if str_eq level "warn"
    then warn
    else if str_eq level "error"
    then error
    else info

-- The flag goes before the configuration.
unfoldable pub effective_log_level : String → String → String
effective_log_level flag configured = if str_eq flag "" then configured else flag

pub data Mode : Type 0 where
  sidecar_mode daemon_mode unknown_mode : Mode

unfoldable pub mode_of : String → Mode
mode_of mode =
    if str_eq mode "sidecar"
    then sidecar_mode
    else if str_eq mode "daemon"
    then daemon_mode
    else unknown_mode

module _ (lib : McpLib Handler) (A : Type 0) where
  abbrev pub with_routes : (RouteTable → RouteTable) → ToolServer lib A → ToolServer lib A
  with_routes f s = record s { core = record s.core { route_table = f s.core.route_table } }

  -- `fetchAndRegisterDevices` with the callback that `main` gives to `OnDiscover`: each device's tools are
  -- registered before its route is added.
  unfoldable pub discover_all :
      (String → ℕ) → String → List DeviceConfig → ToolServer lib A → ToolServer lib A
  discover_all clock gw_id [] s = s
  discover_all clock gw_id (cfg ∷ cfgs) s = discover_all clock gw_id cfgs (
      with_routes (add_device gw_id cfg.device.id (clock cfg.device.id))
        (register_device_tools lib A cfg s))

  -- `AddStaticGateway` with that callback.
  unfoldable pub add_gateway :
      (String → Option (List DeviceConfig))
      → (String → ℕ)
      → ℕ
      → StaticGateway
      → ToolServer lib A
      → ToolServer lib A
  unfolding discover_all
  add_gateway fetch clock now gw s =
      let known =
        with_routes
          (register
            (record { id = gw.id; url = gw.url; devices = []; last_heartbeat = 0; status = "" })
            now)
          s in
      elim (fetch gw.url) [ none ↦ known | some cfgs ↦ discover_all clock gw.id cfgs known ]

  -- The loop over the configured gateways: one without an id or a URL is passed over.
  unfoldable pub add_gateways :
      (String → Option (List DeviceConfig))
      → (String → ℕ)
      → ℕ
      → List StaticGateway
      → ToolServer lib A
      → ToolServer lib A
  unfolding add_gateway
  add_gateways fetch clock now [] s = s
  add_gateways fetch clock now (gw ∷ gws) s =
      add_gateways fetch clock now gws
        (if str_eq gw.id "" || str_eq gw.url "" then s else add_gateway fetch clock now gw s)

  -- The sidecar before it starts to serve.
  unfoldable pub start_sidecar :
      (String → Option (List DeviceConfig))
      → (String → ℕ)
      → ℕ
      → List StaticGateway
      → DedupWindow
      → ProgressTracker A
      → ToolServer lib A
  unfolding add_gateways
  start_sidecar fetch clock now gws dedup progress =
      add_gateways fetch clock now gws (new_sidecar_server lib A new_route_table dedup progress)

  -- What `onRemove` does with the devices of the gateways that have gone.
  unfoldable pub remove_all : List String → ToolServer lib A → ToolServer lib A
  remove_all [] s = s
  remove_all (device_id ∷ ids) s = remove_all ids (unregister_device_tools lib A device_id s)

  unfoldable pub refresh_all : List String → ToolServer lib A → ToolServer lib A
  refresh_all [] s = s
  refresh_all (device_id ∷ ids) s = refresh_all ids (refresh_device_tools lib A device_id s)

  -- The callback of `OnStatusChange`, once it has the read lock; `Model.Locking` is about that.
  unfoldable pub on_status_change : String → String → ToolServer lib A → ToolServer lib A
  unfolding refresh_all
  on_status_change gw_id new_status s =
      if str_eq new_status gateway_maintenance || str_eq new_status gateway_online
      then refresh_all (devices_by_gateway gw_id s.core.route_table) s
      else s
