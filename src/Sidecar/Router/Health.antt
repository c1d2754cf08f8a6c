-- ===== src/Sidecar/Router/Health.antt =====
-- What one tick of the health check makes of each gateway.
use devagent.Base.{
  ok, ℕ, String, ◌≡◌, refl, ◌∙◌, Bool, Option, none, some, List, [], ◌∷◌, inl, inr, arith, map,
  if◌then◌else◌, contains, Assoc, IsMap, lookup, eq_iff, str_eq, lookup-insert, lookup-remove,
  Option-cases,
}
use devagent.Model.RouteTable.{
  GatewayMeta, RouteTable, StatusChange, new_route_table, gateway_online, gateway_maintenance,
  stale_gateways, set_gateway_status, unregister, update_heartbeat, gateway_list,
}
use devagent.Model.RouteTable.Routes.{Operation, run_all}
use devagent.Model.RouteTable.Stale.{is_silent, stale_gateways_lem}
use devagent.Model.RouteTable.Keyed.{
  IsKeyed, IsTable, unregister-IsTable, set_gateway_status-IsTable, reachable-IsTable,
}
use devagent.Sidecar.Router.{
  SidecarConfig, maintain_all, unregister_all, probe_all, finish_check, health_check,
}
use devagent.Sidecar.Router.Callbacks.{
  maintained_all, probed_one, probed_all, GoesOn, then-GoesOn, maintain_all-GoesOn,
  probe_all-GoesOn,
}

-- The gateway as each part of the tick leaves it.
abbrev pub maintained : GatewayMeta → GatewayMeta
maintained gw = record gw { status = gateway_maintenance }

abbrev pub beating : ℕ → GatewayMeta → GatewayMeta
beating now gw = record gw { last_heartbeat = now; status = gateway_online }

abbrev map_if : Bool → (GatewayMeta → GatewayMeta) → Option GatewayMeta → Option GatewayMeta
map_if b f none = none
map_if b f (some gw) = if b then some (f gw) else some gw

lookup-set_gateway_status :
    (k g : String) (rt : RouteTable)
    → lookup g (set_gateway_status k gateway_maintenance rt).0.gateways
      ≡ map_if (str_eq k g) maintained (lookup g rt.gateways)
unfolding set_gateway_status
lookup-set_gateway_status k g rt = elim (Option-cases (lookup k rt.gateways)) [
  | inl absent ↦ ground (arith, eq_iff k g)
  | inr (gw, found) ↦ ground (
    arith,
    eq_iff k g,
    eq_iff gw.status gateway_maintenance,
    lookup-insert k g (maintained gw) rt.gateways,
  )
]

lookup-update_heartbeat :
    (k g : String) (now : ℕ) (rt : RouteTable)
    → lookup g (update_heartbeat k now rt).0.gateways
      ≡ map_if (str_eq k g) (beating now) (lookup g rt.gateways)
unfolding update_heartbeat
lookup-update_heartbeat k g now rt = elim (Option-cases (lookup k rt.gateways)) [
  | inl absent ↦ ground (arith, eq_iff k g)
  | inr (gw, found) ↦ ground (arith, eq_iff k g, lookup-insert k g (beating now gw) rt.gateways)
]

lookup-unregister :
    (k g : String) (rt : RouteTable)
    → lookup g (unregister k rt).0.gateways ≡ (if str_eq k g then none else lookup g rt.gateways)
unfolding unregister
lookup-unregister k g rt = elim (Option-cases (lookup k rt.gateways)) [
  | inl absent ↦ ground (arith, eq_iff k g)
  | inr (gw, found) ↦ ground (arith, eq_iff k g, lookup-remove k g rt.gateways)
]

lookup-maintained_all :
    (ids : List String) (g : String) (rt : RouteTable)
    → lookup g (maintained_all ids rt).gateways
      ≡ map_if (contains ids g) maintained (lookup g rt.gateways)
unfolding maintained_all contains
lookup-maintained_all [] g rt = ground arith
lookup-maintained_all (k ∷ ids) g rt = ground (
  arith,
  lookup-set_gateway_status k g rt,
  lookup-maintained_all ids g (set_gateway_status k gateway_maintenance rt).0,
)

lookup-unregister_all :
    (ids : List String) (g : String) (rt : RouteTable)
    → lookup g (unregister_all ids rt).0.gateways
      ≡ (if contains ids g then none else lookup g rt.gateways)
unfolding unregister_all contains
lookup-unregister_all [] g rt = refl
lookup-unregister_all (k ∷ ids) g rt =
    ground (arith, lookup-unregister k g rt, lookup-unregister_all ids g (unregister k rt).0)

-- What the probes make of an entry of the table, given the entry of the copies.
abbrev probed :
    (String → Bool)
    → (String → ℕ)
    → String
    → Option GatewayMeta
    → Option GatewayMeta
    → Option GatewayMeta
probed probe clock g none o = o
probed probe clock g (some copy) o = map_if (probe copy.url) (beating (clock g)) o

lookup-probed_all :
    (probe : String → Bool) (clock : String → ℕ) (gws : Assoc GatewayMeta) (g : String)
    (rt : RouteTable)
    → IsMap gws
    → IsKeyed gws
    → lookup g (probed_all probe clock (map (λ e. e.1) gws) rt).gateways
      ≡ probed probe clock g (lookup g gws) (lookup g rt.gateways)
unfolding probed_all probed_one lookup
lookup-probed_all probe clock [] g rt unique keyed = refl
lookup-probed_all probe clock ((k, gw) ∷ gws) g rt unique keyed =
    let rt' = if probe gw.url then (update_heartbeat gw.id (clock gw.id) rt).0 else rt in
    lookup-probed_all probe clock gws g rt' unique.1 keyed.1
    ∙ ground (arith, eq_iff k g, lookup-update_heartbeat gw.id g (clock gw.id) rt)

maintained_all-IsTable :
    (ids : List String) (rt : RouteTable)
    → IsTable rt.gateways
    → IsTable (maintained_all ids rt).gateways
unfolding maintained_all
maintained_all-IsTable [] rt h = h
maintained_all-IsTable (k ∷ ids) rt h =
    maintained_all-IsTable ids (set_gateway_status k gateway_maintenance rt).0
      (set_gateway_status-IsTable k gateway_maintenance rt h)

unregister_all-IsTable :
    (ids : List String) (rt : RouteTable)
    → IsTable rt.gateways
    → IsTable (unregister_all ids rt).0.gateways
unfolding unregister_all
unregister_all-IsTable [] rt h = h
unregister_all-IsTable (k ∷ ids) rt h =
    unregister_all-IsTable ids (unregister k rt).0 (unregister-IsTable k rt h)

-- The entry of a gateway after a tick, from the one before it.
abbrev pub checked :
    SidecarConfig
    → (String → Bool)
    → (String → ℕ)
    → ℕ
    → String
    → Option GatewayMeta
    → Option GatewayMeta
checked cfg probe clock now g none = none
checked cfg probe clock now g (some gw) =
    if is_silent cfg.heartbeat_timeout now gw
    then none
    else if probe gw.url
    then some (beating (clock g) gw)
    else if is_silent cfg.maintenance_timeout now gw
    then some (maintained gw)
    else some gw

-- A tick of the health check, on a table that any operations have made, hangs only in a callback for a
-- gateway whose status has changed to maintenance or online and from which the callback does not
-- return, so never where no callback is installed or every call of it returns. Otherwise it comes to
-- its end, and then a gateway that was silent for longer than the heartbeat timeout is gone; of the
-- others, one that answers the probe is online with a new heartbeat, one that does not and was silent
-- for longer than the maintenance timeout is under maintenance, and every other gateway is as it was.
pub health_check_lem :
    (returns : StatusChange → Bool) (ops : List Operation) (cfg : SidecarConfig)
    (probe : String → Bool) (clock : String → ℕ) (now : ℕ) (g : String)
    → let rt = run_all ops new_route_table in
      (after : RouteTable) × (removed : List String) × GoesOn returns
        (health_check returns cfg probe clock now rt)
        (after, removed)
      × (lookup g after.gateways ≡ checked cfg probe clock now g (lookup g rt.gateways))
unfolding health_check finish_check gateway_list
health_check_lem returns ops cfg probe clock now g =
    let rt = run_all ops new_route_table in
    let stale = stale_gateways cfg.maintenance_timeout cfg.heartbeat_timeout now rt in
    let rt1 = maintained_all stale.0 rt in
    let rt2 = (unregister_all stale.1 rt1).0 in
    let removed = (unregister_all stale.1 rt1).1 in
    let rt3 = probed_all probe clock (gateway_list rt2) rt2 in
    let valid =
      unregister_all-IsTable stale.1 rt1
        (maintained_all-IsTable stale.0 rt (reachable-IsTable ops)) in
    let exact = stale_gateways_lem ops cfg.maintenance_timeout cfg.heartbeat_timeout now g in
    (
      rt3,
      removed,
      then-GoesOn returns (maintain_all returns stale.0 rt) rt1
          (finish_check returns probe clock stale.1) (rt3, removed)
          (maintain_all-GoesOn returns stale.0 rt)
          (then-GoesOn returns (probe_all returns probe clock (gateway_list rt2) rt2) rt3
            (λ table. ok (table, removed)) (rt3, removed)
            (probe_all-GoesOn returns probe clock (gateway_list rt2) rt2) (inl refl)),
      rw (lookup-probed_all probe clock rt2.gateways g rt2 valid.unique valid.keyed) (
          ground (
            arith,
            lookup-unregister_all stale.1 g rt1,
            lookup-maintained_all stale.0 g rt,
            exact.0,
            exact.1,
          )),
    )
