-- ===== src/Tests/Locking.antt =====
-- An instance of the theorem on the route table's lock.
use native.Mathlib.Decide.{ℕ_discrete}
use devagent.Base.{◌≡◌, refl, ap, ℕ, [], ◌∷◌, arith, eq_iff, lookup, insert}
use devagent.Model.RouteTable.{GatewayMeta, register, gateway_maintenance, new_route_table}
use devagent.Model.RouteTable.Routes.{register_op, set_gateway_status_op, run}
use devagent.Model.Locking.{
  outside, writing, leaving, calling_back, System, moved, start, Step, Reach, started, later,
  holds_any, called_back, change_of,
}
use devagent.Model.Locking.Deadlock.{suspended, change-deadlock}

abbrev gateway : GatewayMeta
gateway = record {
  id = "gw_1";
  url = "http://gw1:8080";
  devices = "shelf_01" ∷ [];
  last_heartbeat = 0;
  status = "";
}

abbrev known_gateway : GatewayMeta
known_gateway = record gateway { last_heartbeat = 100; status = "online" }

-- One goroutine has registered the gateway.
abbrev locked : System
locked = record start { place = moved start.place 0 (writing (register_op gateway 100)) }

abbrev written : System
written = record {
  table = run (register_op gateway 100) new_route_table;
  place = moved locked.place 0 (called_back (change_of (register_op gateway 100) new_route_table));
}

abbrev released : System
released = record written { place = moved written.place 0 outside }

pub at_leaving : written.place 0 ≡ leaving
unfolding called_back change_of
at_leaving = ground arith

pub reach_released : Reach released
unfolding holds_any
reach_released =
    later written released
      (later locked written
        (later start locked started (Step.lock 0 (register_op gateway 100) refl (λ j. refl)))
        (Step.write 0 (register_op gateway 100) (ground arith)))
      (Step.unlock 0 at_leaving)

all_outside : (j : ℕ) → released.place j ≡ outside
all_outside j = ground arith

-- Another one has locked the table to put the gateway into maintenance.
abbrev suspending : System
suspending = record released {
  place = moved released.place 3 (writing (set_gateway_status_op "gw_1" gateway_maintenance));
}

reach_suspending : Reach suspending
unfolding holds_any
reach_suspending = later released suspending reach_released (
    Step.lock 3 (set_gateway_status_op "gw_1" gateway_maintenance) (all_outside 3)
      (λ j. ap holds_any (all_outside j)))

change-deadlock_example :
    (t : System) × Step suspending t
    × ((u : System) → Step suspending u → u ≡ t)
    × (t.table ≡ run (set_gateway_status_op "gw_1" gateway_maintenance) suspending.table)
    × (t.place 3 ≡ calling_back "gw_1")
    × ((u : System) → ¬ Step t u)
unfolding run register lookup insert ℕ_discrete
change-deadlock_example =
    change-deadlock suspending 3 "gw_1" known_gateway
      (set_gateway_status_op "gw_1" gateway_maintenance) reach_suspending refl refl
      (suspended (ground (arith, eq_iff "online" gateway_maintenance)))
