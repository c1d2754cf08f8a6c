-- ===== src/Model/RouteTable/Register.antt =====
-- What `Register` and `AddDevice` make of a discovery.
use devagent.Base.{
  All, In-All, In-append_cases, ◌++◌, ℕ, String, ◌≡◌, refl, inl, inr, none, some, arith, eq_iff,
  if◌then◌else◌, contains, In, Option-cases, lookup, lookup-insert, eq_refl, str_eq-eq_false,
}
use devagent.Model.RouteTable.{GatewayMeta, RouteTable, register, lookup_device, merge_devices}
use devagent.Model.RouteTable.Merge.{lookup-route_all, In-merge_devices, In-merge_devices_new}
use devagent.Model.RouteTable.Routes.{IsRouted}

-- Registering a new gateway makes `Lookup` return its URL for each device that it announces, and
-- leaves what `Lookup` returns for every other device.
pub lookup_device-register :
    (rt : RouteTable) (gw : GatewayMeta) (now : ℕ) (d : String)
    → IsRouted rt
    → lookup gw.id rt.gateways ≡ none
    → lookup_device d (register gw now rt)
      ≡ (if contains gw.devices d then some gw.url else lookup_device d rt)
unfolding lookup_device register
lookup_device-register rt gw now d routed fresh = elim (Option-cases (lookup d rt.devices)) [
  | inl unrouted ↦ ground (
    arith,
    lookup-route_all gw.id gw.devices rt.devices d,
    lookup-insert gw.id gw.id (record gw { last_heartbeat = now; status = "online" }) rt.gateways,
    eq_iff gw.id gw.id,
  )
  | inr (k, e) ↦
      let elsewhere =
        str_eq-eq_false gw.id k (λ same. absurd (rw fresh at (rw (← same) at (routed d k e)))) in
      ground (
        arith,
        lookup-route_all gw.id gw.devices rt.devices d,
        lookup-insert gw.id gw.id (record gw { last_heartbeat = now; status = "online" })
            rt.gateways,
        lookup-insert gw.id k (record gw { last_heartbeat = now; status = "online" }) rt.gateways,
        eq_iff gw.id gw.id,
      )
]

-- A known gateway that is discovered again gets the new URL and keeps its heartbeat and its status;
-- its device list loses nothing and gains every device that is announced.
pub register_known :
    (rt : RouteTable) (gw old : GatewayMeta) (now : ℕ)
    → lookup gw.id rt.gateways ≡ some old
    → (new : GatewayMeta) × (lookup gw.id (register gw now rt).gateways ≡ some new)
      × (new.url ≡ gw.url)
      × (new.last_heartbeat ≡ old.last_heartbeat)
      × (new.status ≡ old.status)
      × All (λ d. In d new.devices) (old.devices ++ gw.devices)
unfolding register
register_known rt gw old now found =
    let merged = (merge_devices gw.id gw.devices (old.devices, rt.devices)).0 in
    (
      record old { url = gw.url; devices = merged },
      rw (found, register, lookup-insert, eq_refl) refl,
      refl,
      refl,
      refl,
      In-All (old.devices ++ gw.devices) (λ d m. elim (In-append_cases d old.devices gw.devices m) [
        | inl h ↦ In-merge_devices gw.id gw.devices old.devices rt.devices d h
        | inr h ↦ In-merge_devices_new gw.id gw.devices old.devices rt.devices d h
      ]),
    )
