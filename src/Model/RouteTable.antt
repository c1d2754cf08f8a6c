-- ===== src/Model/RouteTable.antt =====
-- internal/model/device.go, `RouteTable`: which gateway serves which device. Each operation is one
-- step under the table's mutex, and takes the Unix second that
-- it reads from the wall clock. A gateway's record is owned by the table, so a map of records stands
-- for the map of pointers. Callers pass `Register` a slice that they do not keep.
mod Merge
pub mod Routes
pub mod Unregister
pub mod Register
pub mod Keyed
pub mod Stale
use devagent.Base.{
  ℕ, ◌+◌, ◌/◌, ◌^◌, ◌*◌, String, Bool, true, false, Option, none, some, List, [], ◌∷◌, ◌++◌, map,
  ltb, str_eq, if◌then◌else◌, contains, Assoc, lookup, insert, remove,
}

pub record GatewayMeta : Type 0 where
  pub id : String
  pub url : String
  pub devices : List String
  pub last_heartbeat : ℕ
  pub status : String

abbrev pub gateway_online : String
gateway_online = "online"

abbrev pub gateway_maintenance : String
gateway_maintenance = "maintenance"

abbrev pub gateway_offline : String
gateway_offline = "offline"

pub record RouteTable : Type 0 where
  pub gateways : Assoc GatewayMeta
  pub devices : Assoc String

abbrev pub new_route_table : RouteTable
new_route_table = record { gateways = []; devices = [] }

-- The loop of `Register` over the devices of a known gateway: the gateway's list and the routes.
unfoldable pub merge_devices :
    String → List String → List String × Assoc String → List String × Assoc String
unfolding contains
merge_devices gw_id [] (listed, routes) = (listed, routes)
merge_devices gw_id (d ∷ ds) (listed, routes) =
    merge_devices gw_id ds
      (if contains listed d then (listed, routes) else (listed ++ d ∷ [], insert d gw_id routes))

-- `for _, d := range gw.Devices { rt.devices[d] = gw.ID }`
unfoldable pub route_all : String → List String → Assoc String → Assoc String
route_all gw_id [] routes = routes
route_all gw_id (d ∷ ds) routes = route_all gw_id ds (insert d gw_id routes)

unfoldable pub register : GatewayMeta → ℕ → RouteTable → RouteTable
unfolding merge_devices route_all
register gw now rt = elim (lookup gw.id rt.gateways) [
  | some existing ↦
      let (listed, routes) = merge_devices gw.id gw.devices (existing.devices, rt.devices) in
      record {
        gateways = insert gw.id (record existing { url = gw.url; devices = listed }) rt.gateways;
        devices = routes;
      }
  | none ↦ record {
    gateways =
        insert gw.id
          (record {
            id = gw.id;
            url = gw.url;
            devices = gw.devices;
            last_heartbeat = now;
            status = gateway_online;
          })
          rt.gateways;
    devices = route_all gw.id gw.devices rt.devices;
  }
]

-- The gateway that `AddDevice` finds or makes.
unfoldable pub gateway_for : String → ℕ → RouteTable → GatewayMeta
gateway_for gw_id now rt = elim (lookup gw_id rt.gateways) [
  | some gw ↦ gw
  | none ↦ record {
    id = gw_id;
    url = "";
    devices = [];
    last_heartbeat = now;
    status = gateway_online;
  }
]

unfoldable pub add_device : String → String → ℕ → RouteTable → RouteTable
unfolding gateway_for contains
add_device gw_id device_id now rt =
    let gw = gateway_for gw_id now rt in
    if contains gw.devices device_id
    then record rt { gateways = insert gw_id gw rt.gateways }
    else record {
      gateways = insert gw_id (record gw { devices = gw.devices ++ device_id ∷ [] }) rt.gateways;
      devices = insert device_id gw_id rt.devices;
    }

-- `for _, d := range gw.Devices { delete(rt.devices, d); … }`
unfoldable pub unroute_all : List String → Assoc String → Assoc String
unroute_all [] routes = routes
unroute_all (d ∷ ds) routes = unroute_all ds (remove d routes)

-- The second component is the list of the devices that were removed.
unfoldable pub unregister : String → RouteTable → RouteTable × List String
unfolding unroute_all
unregister gw_id rt = elim (lookup gw_id rt.gateways) [
  | none ↦ (rt, [])
  | some gw ↦ (
    record { gateways = remove gw_id rt.gateways; devices = unroute_all gw.devices rt.devices },
    gw.devices,
  )
]

-- `Lookup`: the URL of the gateway that serves a device.
unfoldable pub lookup_device : String → RouteTable → Option String
lookup_device device_id rt = elim (lookup device_id rt.devices) [
  | none ↦ none
  | some gw_id ↦ elim (lookup gw_id rt.gateways) [ none ↦ none | some gw ↦ some gw.url ]
]

pub record DeviceRow : Type 0 where
  pub device_id : String
  pub gateway_id : String
  pub gateway_url : String
  pub status : String
  pub last_heartbeat : ℕ

unfoldable pub rows_of : GatewayMeta → List String → List DeviceRow
rows_of gw [] = []
rows_of gw (d ∷ ds) =
    record {
      device_id = d;
      gateway_id = gw.id;
      gateway_url = gw.url;
      status = gw.status;
      last_heartbeat = gw.last_heartbeat;
    }
    ∷ rows_of gw ds

-- The outer loop of `AllDevices`, over the gateways in the order in which the map yields them.
unfoldable pub all_rows : Assoc GatewayMeta → List DeviceRow
unfolding rows_of
all_rows [] = []
all_rows ((k, gw) ∷ gws) = rows_of gw gw.devices ++ all_rows gws

unfoldable pub all_devices : RouteTable → List DeviceRow
unfolding all_rows
all_devices rt = all_rows rt.gateways

-- `Gateways`: copies of the records.
unfoldable pub gateway_list : RouteTable → List GatewayMeta
gateway_list rt = map (λ e. e.1) rt.gateways

unfoldable pub devices_by_gateway : String → RouteTable → List String
devices_by_gateway gw_id rt = elim (lookup gw_id rt.gateways) [ none ↦ [] | some gw ↦ gw.devices ]

-- A call of `onStatusChange`.
pub record StatusChange : Type 0 where
  pub gw_id : String
  pub old_status : String
  pub new_status : String

unfoldable pub update_heartbeat : String → ℕ → RouteTable → RouteTable × Option StatusChange
update_heartbeat gw_id now rt = elim (lookup gw_id rt.gateways) [
  | none ↦ (rt, none)
  | some gw ↦ (
    record rt {
      gateways =
          insert gw_id (record gw { last_heartbeat = now; status = gateway_online }) rt.gateways;
    },
    (if str_eq gw.status gateway_online
        then none
        else some (record { gw_id = gw_id; old_status = gw.status; new_status = gateway_online })),
  )
]

-- The last component is the result: whether the gateway is known.
unfoldable pub set_gateway_status :
    String → String → RouteTable → RouteTable × Option StatusChange × Bool
set_gateway_status gw_id new_status rt = elim (lookup gw_id rt.gateways) [
  | none ↦ (rt, none, false)
  | some gw ↦ if str_eq gw.status new_status then (rt, none, true) else (
    record rt { gateways = insert gw_id (record gw { status = new_status }) rt.gateways },
    some (record { gw_id = gw_id; old_status = gw.status; new_status = new_status }),
    true,
  )
]

-- `int64(d.Seconds())` of a duration in nanoseconds.
abbrev pub whole_seconds : ℕ → ℕ
whole_seconds d = d / 10 ^ 9

-- The loop of `StaleGateways`; the elapsed time exceeds the timeout: a comparison of sums, since the
-- wall clock may have gone back. The results are the maintenance and the offline list.
unfoldable pub stale_from : ℕ → ℕ → ℕ → Assoc GatewayMeta → List String × List String
stale_from maintenance_timeout offline_timeout now [] = ([], [])
stale_from maintenance_timeout offline_timeout now ((id, gw) ∷ gws) =
    let (maintenance, offline) = stale_from maintenance_timeout offline_timeout now gws in
    if ltb (gw.last_heartbeat + whole_seconds offline_timeout) now
    then (maintenance, id ∷ offline)
    else if ltb (gw.last_heartbeat + whole_seconds maintenance_timeout) now
    then (id ∷ maintenance, offline)
    else (maintenance, offline)

unfoldable pub stale_gateways : ℕ → ℕ → ℕ → RouteTable → List String × List String
unfolding stale_from
stale_gateways maintenance_timeout offline_timeout now rt =
    stale_from maintenance_timeout offline_timeout now rt.gateways
