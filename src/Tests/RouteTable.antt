-- ===== src/Tests/RouteTable.antt =====
-- internal/model/device_test.go, and instances of the theorems on the route table.
use devagent.Base.{
  ◌≡◌, ◌≢◌, refl, none, some, String, List, [], ◌∷◌, inl, arith, eq_iff, lookup, insert, remove,
  contains, In, pos,
}
use devagent.Model.Capability.{Capability, DeviceConfig}
use devagent.Model.RouteTable.{
  GatewayMeta, new_route_table, register, add_device, unregister, lookup_device, update_heartbeat,
  set_gateway_status, stale_gateways,
}
use devagent.Model.RouteTable.Routes.{
  Operation, register_op, run, run_all, lookup_device-reachable, reachable-IsRouted,
}
use devagent.Model.RouteTable.Unregister.{shared_device_lost}

abbrev gateway : String → String → List String → GatewayMeta
gateway id url devices = record {
  id = id;
  url = url;
  devices = devices;
  last_heartbeat = 0;
  status = "";
}

abbrev gw1 : GatewayMeta
gw1 = gateway "gw_1" "http://gw1:8080" ("shelf_01" ∷ "shelf_02" ∷ [])

abbrev gw2 : GatewayMeta
gw2 = gateway "gw_2" "http://gw2:8080" ("shelf_01" ∷ [])

abbrev one : List Operation
one = register_op gw1 100 ∷ []

-- A device that has moved, or that is announced twice.
abbrev two : List Operation
two = register_op gw1 100 ∷ register_op gw2 110 ∷ []

program : Unit {0}
unfolding run_all run register add_device unregister lookup_device stale_gateways update_heartbeat
    set_gateway_status lookup insert remove contains
program = tt

register_and_lookup :
    (lookup_device "shelf_01" (run_all one new_route_table) ≡ some "http://gw1:8080")
    × (lookup_device "ghost_01" (run_all one new_route_table) ≡ none)
unfolding program
register_and_lookup = (refl, refl)

unregister_test :
    ((unregister "gw_1" (run_all one new_route_table)).1 ≡ "shelf_01" ∷ "shelf_02" ∷ [])
    × (lookup_device "shelf_01" (unregister "gw_1" (run_all one new_route_table)).0 ≡ none)
unfolding program
unregister_test = (refl, refl)

lookup_device-reachable_example :
    (gw : GatewayMeta) × (lookup "gw_2" (run_all two new_route_table).gateways ≡ some gw)
    × In "shelf_01" gw.devices
    × (lookup_device "shelf_01" (run_all two new_route_table) ≡ some gw.url)
unfolding program
lookup_device-reachable_example = lookup_device-reachable two "shelf_01" "gw_2" refl

abbrev online1 : GatewayMeta
online1 = record gw1 { last_heartbeat = 100; status = "online" }

abbrev online2 : GatewayMeta
online2 = record gw2 { last_heartbeat = 110; status = "online" }

first_known : lookup "gw_1" (run_all two new_route_table).gateways ≡ some online1
unfolding program
first_known = refl

second_known : lookup "gw_2" (run_all two new_route_table).gateways ≡ some online2
unfolding program
second_known = refl

names_differ : ◌≢◌ {A = String} "gw_1" "gw_2"
names_differ = ground (arith, eq_iff "gw_1" "gw_2")

shared_device_lost_example :
    (lookup "gw_2" (unregister "gw_1" (run_all two new_route_table)).0.gateways ≡ some online2)
    × (lookup_device "shelf_01" (unregister "gw_1" (run_all two new_route_table)).0 ≡ none)
    × (lookup_device "shelf_01"
          (add_device "gw_2" "shelf_01" 120 (unregister "gw_1" (run_all two new_route_table)).0)
        ≡ none)
shared_device_lost_example =
    shared_device_lost (run_all two new_route_table) "gw_1" online1 (reachable-IsRouted two)
      first_known "gw_2" "shelf_01" online2 120 names_differ second_known (inl refl) (inl refl)

stale_test :
    stale_gateways 30_000_000_000 60_000_000_000 145 (run_all two new_route_table)
    ≡ ("gw_1" ∷ "gw_2" ∷ [], [])
unfolding program
stale_test = refl

abbrev relay : Capability
relay = record {
  name = "set_relay";
  description = "";
  intent_id = 0;
  input_schema = record { type_name = "object"; properties = []; required = [] };
  implementation = record {
    native = "";
    proxy = "uart";
    channel = "";
    baudrate = pos 0;
    protocol = "dcp";
    hmac_secret = "s3cret";
    cmd_map = [];
    timeout_ms = pos 0;
    retry = pos 0;
    allowed_commands = [];
  };
}

abbrev shelf : DeviceConfig
shelf = record {
  device = record { id = "shelf_01"; name = "shelf"; type_name = "mcu_proxy"; capabilities = [] };
  capabilities = relay ∷ [];
}
