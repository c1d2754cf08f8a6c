-- ===== src/Tests/Sidecar.antt =====
-- internal/sidecar's tests, and instances of the theorems on its components.
use devagent.Base.{
  ◌⊎◌, ok, ℕ, ◌≡◌, ◌≢◌, refl, true, false, Option, none, some, String, List, [], ◌∷◌, arith, lookup,
  insert, remove, keep,
}
use devagent.Sidecar.Dedup.{new_dedup_window, Event, call, tick, verdicts}
use devagent.Sidecar.Dedup.Window.{ideal_verdicts, verdicts-eq-ideal}
use devagent.Sidecar.Progress.{Job}
use devagent.Sidecar.Server.{
  SidecarServer, under_maintenance, duplicate_request, dispatched, get_gateway_status,
  handle_device_invoke, settle, handle_get_job_status,
}
use devagent.Sidecar.Server.Dispatch
use devagent.Sidecar.Server.Dispatch.{handle_device_invoke_lem}
use devagent.Sidecar.Dedup.{allow as allow_key}
use devagent.Model.RouteTable.{gateway_maintenance}
use devagent.Sidecar.Router.{SidecarConfig, health_check}
use devagent.Sidecar.Router.Callbacks.{GoesOn}
use devagent.Sidecar.Router.Health.{checked, health_check_lem}
use devagent.Model.Capability.{DeviceConfig}
use devagent.Model.RouteTable.{GatewayMeta, RouteTable, new_route_table}
use devagent.Model.RouteTable.Routes.{Operation, register_op, run_all}

-- A time to live of 3 s, in milliseconds.
abbrev events : List Event
events = call "k" 0 ∷ call "k" 2000 ∷ call "j" 2500 ∷ tick 5000 ∷ call "k" 5000 ∷ []

five_verdicts : verdicts (new_dedup_window 3000) events ≡ true ∷ false ∷ true ∷ true ∷ []
unfolding verdicts new_dedup_window lookup insert keep remove
five_verdicts = refl

verdicts-eq-ideal_example :
    verdicts (new_dedup_window 3000) events ≡ ideal_verdicts 3000 (λ key. none) events
verdicts-eq-ideal_example = verdicts-eq-ideal 3000 events (omega arith)

abbrev pending : Job ℕ
pending = record {
  id = "job_1";
  request_id = "req_1";
  device_id = "shelf_01";
  status = "pending";
  progress = 0;
  result = none;
  error = "";
  created_at = 5;
}

abbrev gateway : GatewayMeta
gateway = record {
  id = "gw_1";
  url = "http://gw1:8080";
  devices = "shelf_01" ∷ [];
  last_heartbeat = 0;
  status = "";
}

abbrev ops : List Operation
ops = register_op gateway 100 ∷ []

-- The defaults: 60 s and 90 s.
abbrev cfg : SidecarConfig
cfg = record { maintenance_timeout = 60_000_000_000; heartbeat_timeout = 90_000_000_000 }

-- The callback of `main` does not return.
health_check_lem_example :
    (after : RouteTable) × (removed : List String) × GoesOn
      (λ change. false)
      (health_check
        (λ change. false)
        cfg
        (λ url. false)
        (λ id. 170)
        170
        (run_all ops new_route_table))
      (after, removed)
    × (lookup "gw_1" after.gateways
        ≡ checked cfg
            (λ url. false)
            (λ id. 170)
            170
            "gw_1"
            (lookup "gw_1" (run_all ops new_route_table).gateways))
health_check_lem_example =
    health_check_lem (λ change. false) ops cfg (λ url. false) (λ id. 170) 170 "gw_1"

abbrev shelf : DeviceConfig
shelf = record {
  device = record { id = "shelf_01"; name = "shelf"; type_name = "mcu_proxy"; capabilities = [] };
  capabilities = [];
}

abbrev daemon_answer : String → Option (List DeviceConfig)
daemon_answer url = some (shelf ∷ [])

abbrev sidecar : SidecarServer ℕ
sidecar = record {
  route_table = new_route_table;
  dedup = new_dedup_window 3_000_000_000;
  progress = [];
  configs = [];
}

handle_device_invoke_lem_example :
    let after = handle_device_invoke ℕ "shelf_01" "k" 0 "job_1" "req_1" 5 sidecar in
    ((get_gateway_status ℕ "shelf_01" sidecar ≡ gateway_maintenance)
      × (after ≡ (sidecar, under_maintenance "shelf_01")))
    ⊎ ((get_gateway_status ℕ "shelf_01" sidecar ≢ gateway_maintenance)
        × ((allow_key sidecar.dedup "k" 0).1 ≡ false)
        × (after.1 ≡ duplicate_request)
        × (after.0.progress ≡ []))
    ⊎ ((get_gateway_status ℕ "shelf_01" sidecar ≢ gateway_maintenance)
        × ((allow_key sidecar.dedup "k" 0).1 ≡ true)
        × (after.1 ≡ dispatched "job_1")
        × (handle_get_job_status ℕ "job_1" after.0 ≡ some pending)
        × (handle_get_job_status ℕ "job_1" (settle ℕ "job_1" (ok 7) after.0)
            ≡ some (Dispatch.settled ℕ (ok 7) pending)))
handle_device_invoke_lem_example =
    handle_device_invoke_lem ℕ "shelf_01" "k" 0 "job_1" "req_1" 5 sidecar (ok 7)
