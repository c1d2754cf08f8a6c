-- ===== src/Model/RouteTable/Unregister.antt =====
-- `Unregister`, and a device that two gateways list.
use devagent.Base.{
  ℕ, String, ◌≡◌, refl, ◌≢◌, inl, inr, false, none, some, arith, str_eq, eq_iff, if◌then◌else◌,
  contains, In, In→contains, Option-cases, lookup, remove, lookup-insert, lookup-remove,
  str_eq-eq_false,
}
use devagent.Model.RouteTable.{
  GatewayMeta, RouteTable, gateway_for, add_device, unregister, lookup_device, unroute_all,
}
use devagent.Model.RouteTable.Merge.{lookup-unroute_all}
use devagent.Model.RouteTable.Routes.{IsRouted}

-- Adding a device to a gateway that lists it changes neither the routes nor what is known of any
-- gateway.
add_device_listed :
    (rt : RouteTable) (h d : String) (gw : GatewayMeta) (now : ℕ)
    → lookup h rt.gateways ≡ some gw
    → In d gw.devices
    → lookup_device d (add_device h d now rt) ≡ lookup_device d rt
unfolding add_device gateway_for lookup_device
add_device_listed rt h d gw now there listed = elim (Option-cases (lookup d rt.devices)) [
  | inl unrouted ↦ ground (arith, In→contains gw.devices d listed)
  | inr (k, e) ↦
      ground (arith, In→contains gw.devices d listed, lookup-insert h k gw rt.gateways, eq_iff h k)
]

-- A table whose routes do not dangle, and a gateway of it.
module _ (rt : RouteTable) (g : String) (gw : GatewayMeta) (routed : IsRouted rt)
    (found : lookup g rt.gateways ≡ some gw) where
  -- A device that the gateway does not list is routed elsewhere, if at all.
  other_route :
      (d h : String)
      → contains gw.devices d ≡ false
      → lookup d rt.devices ≡ some h
      → str_eq g h ≡ false
  other_route d h kept e = str_eq-eq_false g h (λ same.
      let listed : In d gw.devices = rw found at (rw (← same) at (routed d h e)) in
      ground (arith, In→contains gw.devices d listed))

  lookup_device-unregister :
      (d : String)
      → lookup_device d
          (record { gateways = remove g rt.gateways; devices = unroute_all gw.devices rt.devices })
        ≡ (if contains gw.devices d then none else lookup_device d rt)
  unfolding lookup_device
  lookup_device-unregister d = elim (Option-cases (lookup d rt.devices)) [
    | inl unrouted ↦ ground (arith, lookup-unroute_all gw.devices rt.devices d)
    | inr (h, e) ↦ ground (
      arith,
      lookup-unroute_all gw.devices rt.devices d,
      lookup-remove g h rt.gateways,
      λ (kept : contains gw.devices d ≡ false). other_route d h kept e,
    )
  ]

  -- Unregistering a known gateway returns its devices, forgets the gateway, makes `Lookup` fail for
  -- each of its devices, and leaves what `Lookup` returns for every other device.
  pub unregister_lem :
      (d : String)
      → ((unregister g rt).1 ≡ gw.devices)
        × (lookup g (unregister g rt).0.gateways ≡ none)
        × (lookup_device d (unregister g rt).0
            ≡ (if contains gw.devices d then none else lookup_device d rt))
  unfolding unregister
  unregister_lem d =
      rw (found, unregister)
        (
          refl,
          ground (arith, lookup-remove g g rt.gateways, eq_iff g g),
          lookup_device-unregister d,
        )

  -- Where another gateway `h` lists one of the devices too, unregistering `g` makes the device
  -- unreachable although `h` is still there and lists it; and adding the device to `h` again, as each
  -- later discovery of `h` does, does not bring its route back.
  pub shared_device_lost :
      (h d : String) (other : GatewayMeta) (now : ℕ)
      → g ≢ h
      → lookup h rt.gateways ≡ some other
      → In d gw.devices
      → In d other.devices
      → (lookup h (unregister g rt).0.gateways ≡ some other)
        × (lookup_device d (unregister g rt).0 ≡ none)
        × (lookup_device d (add_device h d now (unregister g rt).0) ≡ none)
  shared_device_lost h d other now differ there listed listed_too =
      let rt' = (unregister g rt).0 in
      let still : lookup h rt'.gateways ≡ some other =
        unfold unregister in
        rw (found, unregister, lookup-remove, str_eq-eq_false g h differ) there in
      let lost : lookup_device d rt' ≡ none =
        rw ((unregister_lem d).2, In→contains gw.devices d listed) refl in
      (still, lost, rw (add_device_listed rt' h d other now still listed_too) lost)
