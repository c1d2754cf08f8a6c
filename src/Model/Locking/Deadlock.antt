-- ===== src/Model/Locking/Deadlock.antt =====
-- A change of status that the callback of `main` hears of stops every goroutine at the route table.
use devagent.Base.{
  ℕ, ◌≡◌, ◌≢◌, refl, sym, ap, ◌∙◌, String, true, false, some, arith, eq_iff, eq_refl, lookup,
}
use devagent.Model.RouteTable.{
  GatewayMeta, RouteTable, update_heartbeat, set_gateway_status, gateway_maintenance,
  gateway_online,
}
use devagent.Model.RouteTable.Routes.{Operation, run, update_heartbeat_op, set_gateway_status_op}
use devagent.Model.Locking.{
  Place, outside, reading, writing, calling_back, listing, leaving, holds_write, holds_any,
  change_of, called_back, System, moved, Step, Reach, started, later,
}

-- The one that holds the lock for writing is the only one that holds it.
record IsExclusive (place : ℕ → Place) : Type 0 where
  alone : (i j : ℕ) → holds_write (place i) ≡ true → holds_any (place j) ≡ true → i ≡ j

write→any : (p : Place) → holds_write p ≡ true → holds_any p ≡ true
unfolding holds_write holds_any
write→any outside h = h
write→any reading h = refl
write→any (writing op) h = refl
write→any (calling_back g) h = refl
write→any (listing g) h = refl
write→any leaving h = refl

moved-here : (place : ℕ → Place) (i : ℕ) (p : Place) → moved place i p i ≡ p
moved-here place i p = ground arith

-- A goroutine that holds the lock for writing goes on to a place, or leaves.
writer-moves :
    (place : ℕ → Place) (i : ℕ) (p : Place)
    → holds_write (place i) ≡ true
    → IsExclusive place
    → IsExclusive (moved place i p)
writer-moves place i p own ex = record {
  alone = λ k j w a. ground (arith, ex.alone i j, ex.alone k i, write→any (place i) own);
}

-- A goroutine takes the lock for writing where nobody holds it.
writer-enters :
    (place : ℕ → Place) (i : ℕ) (p : Place)
    → ((j : ℕ) → holds_any (place j) ≡ false)
    → IsExclusive place
    → IsExclusive (moved place i p)
writer-enters place i p free ex = record {
  alone = λ k j w a. ground (arith, free k, free j, write→any (place k));
}

-- A goroutine that is no writer moves to a place that is none, where nobody writes.
reader-moves :
    (place : ℕ → Place) (i : ℕ) (p : Place)
    → holds_write p ≡ false
    → ((j : ℕ) → holds_write (place j) ≡ false)
    → IsExclusive (moved place i p)
reader-moves place i p small free = record { alone = λ k j w a. ground (arith, free k) }

-- A reader lets go.
reader-leaves :
    (place : ℕ → Place) (i : ℕ) → IsExclusive place → IsExclusive (moved place i outside)
unfolding holds_write holds_any
reader-leaves place i ex = record { alone = λ k j w a. ground (arith, ex.alone k j) }

Step-IsExclusive : (s t : System) → Step s t → IsExclusive s.place → IsExclusive t.place
unfolding holds_write
Step-IsExclusive s _ (Step.lock i op at free) ex = writer-enters s.place i (writing op) free ex
Step-IsExclusive s _ (Step.rlock i at free) ex = reader-moves s.place i reading refl free
Step-IsExclusive s _ (Step.runlock i at) ex = reader-leaves s.place i ex
Step-IsExclusive s _ (Step.write i op at) ex =
    writer-moves s.place i (called_back (change_of op s.table)) (ap holds_write at) ex
Step-IsExclusive s _ (Step.rlock_in_callback i g at free) ex =
    writer-moves s.place i (listing g) (ap holds_write at) ex
Step-IsExclusive s _ (Step.runlock_in_callback i g at) ex =
    writer-moves s.place i leaving (ap holds_write at) ex
Step-IsExclusive s _ (Step.unlock i at) ex = writer-moves s.place i outside (ap holds_write at) ex

Reach-IsExclusive : (s : System) → Reach s → IsExclusive s.place
unfolding holds_write
Reach-IsExclusive _ started = record { alone = λ i j w a. cc }
Reach-IsExclusive _ (later s t r st) = Step-IsExclusive s t st (Reach-IsExclusive s r)

-- From a state where a goroutine stands in its callback, no step leads anywhere.
blocked :
    (s t : System) (i : ℕ) (g : String)
    → IsExclusive s.place
    → s.place i ≡ calling_back g
    → ¬ Step s t
unfolding holds_write holds_any
blocked s _ i g ex stuck (Step.lock j op at free) = ground (arith, free i)
blocked s _ i g ex stuck (Step.rlock j at free) = ground (arith, free i)
blocked s _ i g ex stuck (Step.runlock j at) = ground (arith, ex.alone i j)
blocked s _ i g ex stuck (Step.write j op at) = ground (arith, ex.alone i j)
blocked s _ i g ex stuck (Step.rlock_in_callback j h at free) = ground (arith, free i)
blocked s _ i g ex stuck (Step.runlock_in_callback j h at) = ground (arith, ex.alone i j)
blocked s _ i g ex stuck (Step.unlock j at) = ground (arith, ex.alone i j)

-- What the sidecar does to a gateway when it is heard of again, and when it has been silent.
pub data IsChange (gw_id : String) (gw : GatewayMeta) : Operation → Type 0 where
  recovered :
      (now : ℕ) → gw.status ≢ gateway_online → IsChange gw_id gw (update_heartbeat_op gw_id now)
  suspended :
      gw.status ≢ gateway_maintenance
      → IsChange gw_id gw (set_gateway_status_op gw_id gateway_maintenance)

called_back-change :
    (gw_id : String) (gw : GatewayMeta) (rt : RouteTable) (op : Operation)
    → lookup gw_id rt.gateways ≡ some gw
    → IsChange gw_id gw op
    → called_back (change_of op rt) ≡ calling_back gw_id
unfolding called_back change_of update_heartbeat set_gateway_status
called_back-change gw_id gw rt _ known (recovered now differs) =
    rw (change_of, update_heartbeat, known)
      (ground (arith, eq_iff gw.status gateway_online, eq_refl gateway_online))
called_back-change gw_id gw rt _ known (suspended differs) =
    rw (change_of, set_gateway_status, known)
      (ground (arith, eq_iff gw.status gateway_maintenance, eq_refl gateway_maintenance))

-- Where a goroutine holds the lock to make a change, the state after its write.
abbrev pub written : System → ℕ → Operation → System
written s i op = record {
  table = run op s.table;
  place = moved s.place i (called_back (change_of op s.table));
}

-- A goroutine that holds the lock and is about to write makes the only step that there is.
only-write :
    (s t : System) (i : ℕ) (op : Operation)
    → IsExclusive s.place
    → s.place i ≡ writing op
    → Step s t
    → t ≡ written s i op
unfolding holds_write holds_any
only-write s _ i op ex at (Step.lock j other outside_at free) = absurd (ground (arith, free i))
only-write s _ i op ex at (Step.rlock j outside_at free) = absurd (ground (arith, free i))
only-write s _ i op ex at (Step.runlock j reading_at) = absurd (ground (arith, ex.alone i j))
only-write s _ i op ex at (Step.write j other writing_at) =
    let here : i ≡ j = ground (arith, ex.alone i j) in
    let same_place : writing other ≡ writing op = sym writing_at ∙ ap s.place (sym here) ∙ at in
    let same : other ≡ op = cc in rw (← here, same) refl
only-write s _ i op ex at (Step.rlock_in_callback j g calling_at free) =
    absurd (ground (arith, free i))
only-write s _ i op ex at (Step.runlock_in_callback j g listing_at) =
    absurd (ground (arith, ex.alone i j))
only-write s _ i op ex at (Step.unlock j leaving_at) = absurd (ground (arith, ex.alone i j))

-- The heartbeat of a gateway that is not online, and putting a gateway into maintenance, stop the route
-- table for ever. In every reachable state in which a goroutine has locked the table to make such a
-- change, the write of that change is the only step of any goroutine; it leads to the changed table
-- with the goroutine at the `RLock` of its own callback for that gateway, and from there the system has
-- no step at all.
pub change-deadlock :
    (s : System) (i : ℕ) (gw_id : String) (gw : GatewayMeta) (op : Operation)
    → Reach s
    → s.place i ≡ writing op
    → lookup gw_id s.table.gateways ≡ some gw
    → IsChange gw_id gw op
    → (t : System) × Step s t
      × ((u : System) → Step s u → u ≡ t)
      × (t.table ≡ run op s.table)
      × (t.place i ≡ calling_back gw_id)
      × ((u : System) → ¬ Step t u)
change-deadlock s i gw_id gw op r at known change =
    let stuck = written s i op in
    let step : Step s stuck = Step.write i op at in
    let waits : stuck.place i ≡ calling_back gw_id =
      moved-here s.place i (called_back (change_of op s.table))
      ∙ called_back-change gw_id gw s.table op known change in
    (
      stuck,
      step,
      λ u other. only-write s u i op (Reach-IsExclusive s r) at other,
      refl,
      waits,
      λ u. blocked stuck u i gw_id (Reach-IsExclusive stuck (later s stuck r step)) waits,
    )
