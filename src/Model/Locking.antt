-- ===== src/Model/Locking.antt =====
-- internal/model/device.go, the `mu` of `RouteTable`, and the callback of cmd/devagent/main.go: the
-- goroutines that share a route table. `sync.RWMutex` is told by who holds it: `Lock` waits until nobody
-- does, and `RLock` until nobody holds it for writing. A goroutine's own lock counts, since the mutex
-- knows no owner. A goroutine that waits stays where it is.
pub mod Deadlock
use devagent.Base.{
  ℕ, ◌≡◌, String, Bool, true, false, ◌||◌, Option, none, some, str_eq, if◌then◌else◌,
}
use devagent.Model.RouteTable.{
  RouteTable, new_route_table, StatusChange, update_heartbeat, set_gateway_status,
  gateway_maintenance, gateway_online,
}
use devagent.Model.RouteTable.Routes.{
  Operation, register_op, add_device_op, unregister_op, update_heartbeat_op, set_gateway_status_op,
  run,
}
use mathlib.Core.Logic.{ite}
use native.Mathlib.Decide.{ℕ_discrete}

-- Where a goroutine stands.
pub data Place : Type 0 where
  outside : Place
  reading : Place  -- between `RLock` and `RUnlock`
  writing : Operation → Place  -- after `Lock`, before the changes
  calling_back : String → Place  -- in `onStatusChange`, at the `RLock` of `DevicesByGateway`
  listing : String → Place  -- in `onStatusChange`, between that `RLock` and its `RUnlock`
  leaving : Place  -- before `Unlock`

unfoldable pub holds_write : Place → Bool
holds_write outside = false
holds_write reading = false
holds_write (writing op) = true
holds_write (calling_back gw_id) = true
holds_write (listing gw_id) = true
holds_write leaving = true

unfoldable pub holds_any : Place → Bool
unfolding holds_write
holds_any outside = false
holds_any reading = true
holds_any (writing op) = true
holds_any (calling_back gw_id) = true
holds_any (listing gw_id) = true
holds_any leaving = true

-- What `onStatusChange` is called with, if it is.
unfoldable pub change_of : Operation → RouteTable → Option StatusChange
change_of (register_op gw now) rt = none
change_of (add_device_op gw_id device_id now) rt = none
change_of (unregister_op gw_id) rt = none
change_of (update_heartbeat_op gw_id now) rt = (update_heartbeat gw_id now rt).1
change_of (set_gateway_status_op gw_id status) rt = (set_gateway_status gw_id status rt).1

-- The callback of `main`: it asks for the gateway's devices on maintenance and when it is online again.
unfoldable pub called_back : Option StatusChange → Place
called_back none = leaving
called_back (some change) =
    if str_eq change.new_status gateway_maintenance || str_eq change.new_status gateway_online
    then calling_back change.gw_id
    else leaving

pub record System : Type 0 where
  pub table : RouteTable
  pub place : ℕ → Place

abbrev pub moved : (ℕ → Place) → ℕ → Place → ℕ → Place
moved place i p j = ite (ℕ_discrete i j) p (place j)

abbrev pub start : System
start = record { table = new_route_table; place = λ i. outside }

pub data Step (s : System) : System → Type 0 where
  lock :
      (i : ℕ) (op : Operation)
      → s.place i ≡ outside
      → ((j : ℕ) → holds_any (s.place j) ≡ false)
      → Step s (record s { place = moved s.place i (writing op) })
  rlock :
      (i : ℕ)
      → s.place i ≡ outside
      → ((j : ℕ) → holds_write (s.place j) ≡ false)
      → Step s (record s { place = moved s.place i reading })
  runlock : (i : ℕ) → s.place i ≡ reading → Step s (record s { place = moved s.place i outside })
  write :
      (i : ℕ) (op : Operation)
      → s.place i ≡ writing op
      → Step s (record {
        table = run op s.table;
        place = moved s.place i (called_back (change_of op s.table));
      })
  rlock_in_callback :
      (i : ℕ) (gw_id : String)
      → s.place i ≡ calling_back gw_id
      → ((j : ℕ) → holds_write (s.place j) ≡ false)
      → Step s (record s { place = moved s.place i (listing gw_id) })
  runlock_in_callback :
      (i : ℕ) (gw_id : String)
      → s.place i ≡ listing gw_id
      → Step s (record s { place = moved s.place i leaving })
  unlock : (i : ℕ) → s.place i ≡ leaving → Step s (record s { place = moved s.place i outside })

pub data Reach : System → Type 0 where
  started : Reach start
  later : (s t : System) → Reach s → Step s t → Reach t
