-- ===== src/Sidecar/Router.antt =====
-- internal/sidecar/router.go: the health check of the gateways. Each call on the route table is one
-- step under its mutex, and a call that changes a status calls `onStatusChange` under it.
-- The network is a parameter: `probe url` tells whether `GET url/healthz` returned without an error
-- (any HTTP status counts), and `clock id` is the Unix second at which that gateway's heartbeat is
-- written.
pub mod Callbacks
pub mod Health
use devagent.Base.{
  ℕ, String, Bool, Option, none, some, List, [], ◌∷◌, ◌++◌, if◌then◌else◌, Result, ok, err, ◌>>=◌,
}
use devagent.Model.RouteTable.{
  GatewayMeta, RouteTable, StatusChange, gateway_maintenance, stale_gateways, set_gateway_status,
  unregister, update_heartbeat, gateway_list,
}

pub record SidecarConfig : Type 0 where
  pub maintenance_timeout : ℕ
  pub heartbeat_timeout : ℕ

-- A tick that does not go on: the callback that does not return, and the table then. The mutex of the
-- table stays locked.
pub record Hung : Type 0 where
  pub change : StatusChange
  pub table : RouteTable

-- A call that may have called `onStatusChange`; `returns` tells from which calls the callback returns,
-- and holds of every change where no callback is installed.
unfoldable pub after_call :
    (StatusChange → Bool) → RouteTable → Option StatusChange → Result Hung RouteTable
after_call returns rt none = ok rt
after_call returns rt (some change) =
    if returns change then ok rt else err (record { change = change; table = rt })

-- `for _, gwID := range maintenance { SetGatewayStatus(gwID, GatewayMaintenance) }`
unfoldable pub maintain_all :
    (StatusChange → Bool) → List String → RouteTable → Result Hung RouteTable
unfolding after_call
maintain_all returns [] rt = ok rt
maintain_all returns (gw_id ∷ ids) rt =
    let (rt', change, known) = set_gateway_status gw_id gateway_maintenance rt in
    after_call returns rt' change >>= maintain_all returns ids

-- The loop over the offline gateways: the table, and the devices that `onRemove` is called with.
unfoldable pub unregister_all : List String → RouteTable → RouteTable × List String
unregister_all [] rt = (rt, [])
unregister_all (gw_id ∷ ids) rt =
    let (rt', removed) = unregister gw_id rt in
    let (rt'', more) = unregister_all ids rt' in (rt'', removed ++ more)

-- One round of the loop over the copies.
unfoldable pub probe_one :
    (StatusChange → Bool)
    → (String → Bool)
    → (String → ℕ)
    → GatewayMeta
    → RouteTable
    → Result Hung RouteTable
unfolding after_call
probe_one returns probe clock gw rt =
    let (rt', change) = update_heartbeat gw.id (clock gw.id) rt in
    if probe gw.url then after_call returns rt' change else ok rt

-- The loop over the copies that `Gateways` returns.
unfoldable pub probe_all :
    (StatusChange → Bool)
    → (String → Bool)
    → (String → ℕ)
    → List GatewayMeta
    → RouteTable
    → Result Hung RouteTable
unfolding probe_one
probe_all returns probe clock [] rt = ok rt
probe_all returns probe clock (gw ∷ gws) rt =
    probe_one returns probe clock gw rt >>= probe_all returns probe clock gws

-- The tick from the offline gateways on.
unfoldable pub finish_check :
    (StatusChange → Bool)
    → (String → Bool)
    → (String → ℕ)
    → List String
    → RouteTable
    → Result Hung (RouteTable × List String)
unfolding unregister_all probe_all
finish_check returns probe clock offline rt =
    let (rt', removed) = unregister_all offline rt in
    probe_all returns probe clock (gateway_list rt') rt' >>= λ rt''. ok (rt'', removed)

-- One tick of `startGatewayHealthCheck` at the second `now`.
unfoldable pub health_check :
    (StatusChange → Bool)
    → SidecarConfig
    → (String → Bool)
    → (String → ℕ)
    → ℕ
    → RouteTable
    → Result Hung (RouteTable × List String)
unfolding maintain_all finish_check
health_check returns cfg probe clock now rt =
    let (maintenance, offline) =
      stale_gateways cfg.maintenance_timeout cfg.heartbeat_timeout now rt in
    maintain_all returns maintenance rt >>= finish_check returns probe clock offline
