-- ===== src/Model/RouteTable/Routes.antt =====
-- The routes of a `RouteTable`: no operation leaves a route that dangles.
use devagent.Base.{
  ℕ, String, ◌≡◌, refl, inl, inr, false, Option, none, some, List, [], ◌∷◌, arith, str_eq, eq_iff,
  contains, In, In→contains, contains→In, In-append_left, In-append_right, Bool-cases, Option-cases,
  Assoc, lookup, insert, lookup-insert, lookup-remove,
}
use devagent.Model.RouteTable.{
  GatewayMeta, RouteTable, new_route_table, register, gateway_for, add_device, unregister,
  lookup_device, update_heartbeat, set_gateway_status,
}
use devagent.Model.RouteTable.Merge.{
  lookup-unroute_all, lookup-route_all, In-merge_devices, route-merge_devices,
}

-- The operations that change a table, with the instants that they read.
pub data Operation : Type 0 where
  register_op : GatewayMeta → ℕ → Operation
  add_device_op : String → String → ℕ → Operation
  unregister_op : String → Operation
  update_heartbeat_op : String → ℕ → Operation
  set_gateway_status_op : String → String → Operation

unfoldable pub run : Operation → RouteTable → RouteTable
run (register_op gw now) rt = register gw now rt
run (add_device_op g d now) rt = add_device g d now rt
run (unregister_op g) rt = (unregister g rt).0
run (update_heartbeat_op g now) rt = (update_heartbeat g now rt).0
run (set_gateway_status_op g s) rt = (set_gateway_status g s rt).0

unfoldable pub run_all : List Operation → RouteTable → RouteTable
run_all [] rt = rt
run_all (op ∷ ops) rt = run_all ops (run op rt)

-- The gateway is there, and lists the device.
abbrev pub Lists : Option GatewayMeta → String → Type 0
Lists none d = ⊥
Lists (some gw) d = In d gw.devices

-- Every route leads to a gateway that is there and lists the device.
abbrev pub IsRouted : RouteTable → Type 0
IsRouted rt = (d g : String) → lookup d rt.devices ≡ some g → Lists (lookup g rt.gateways) d

Lists-insert :
    (g h d : String) (gw : GatewayMeta) (gws : Assoc GatewayMeta)
    → (g ≡ h → In d gw.devices)
    → (str_eq g h ≡ false → Lists (lookup h gws) d)
    → Lists (lookup h (insert g gw gws)) d
Lists-insert g h d gw gws own other = elim (Bool-cases (str_eq g h)) [
  | inl same ↦ rw (lookup-insert, same) (own ((eq_iff g h).0 same))
  | inr differs ↦ rw (lookup-insert, differs) (other differs)
]

-- A gateway's record may be replaced by one that lists at least the same devices.
IsRouted-update :
    (rt : RouteTable) (g : String) (gw new : GatewayMeta)
    → lookup g rt.gateways ≡ some gw
    → ((d : String) → In d gw.devices → In d new.devices)
    → IsRouted rt
    → IsRouted (record rt { gateways = insert g new rt.gateways })
IsRouted-update rt g gw new found more routed d h e =
    Lists-insert g h d new rt.gateways
      (λ same. more d (rw found at (rw (← same) at (routed d h e)))) (λ _. routed d h e)

register-IsRouted :
    (gw : GatewayMeta) (now : ℕ) (rt : RouteTable) → IsRouted rt → IsRouted (register gw now rt)
unfolding register
register-IsRouted gw now rt routed d h = elim (Option-cases (lookup gw.id rt.gateways)) [
  | inl fresh ↦
      rw (fresh, register)
        (λ e. elim (Bool-cases (contains gw.devices d)) [
          | inl own ↦
              Lists-insert gw.id h d _ rt.gateways (λ _. contains→In gw.devices d own)
                (λ differs.
                  ground (arith, eq_iff gw.id h, lookup-route_all gw.id gw.devices rt.devices d))
          | inr old ↦
              let p = routed d h (rw (lookup-route_all, old) at e) in
              Lists-insert gw.id h d _ rt.gateways (λ same. absurd (rw fresh at (rw (← same) at p)))
                (λ _. p)
        ])
  | inr (old, found) ↦
      rw (found, register)
        (λ e. elim (route-merge_devices gw.id gw.devices old.devices rt.devices d h e) [
          | inl k ↦
              Lists-insert gw.id h d _ rt.gateways
                (λ same.
                  In-merge_devices gw.id gw.devices old.devices rt.devices d
                    (rw found at (rw (← same) at (routed d h k))))
                (λ _. routed d h k)
          | inr (same, listed) ↦
              Lists-insert gw.id h d _ rt.gateways (λ _. listed)
                (λ differs. ground (arith, eq_iff gw.id h))
        ])
]

In-gateway_for :
    (g d : String) (now : ℕ) (rt : RouteTable)
    → Lists (lookup g rt.gateways) d
    → In d (gateway_for g now rt).devices
unfolding gateway_for
In-gateway_for g d now rt h = elim (Option-cases (lookup g rt.gateways)) [
  | inl fresh ↦ absurd (rw fresh at h)
  | inr (gw, found) ↦ rw (found, gateway_for) (rw found at h)
]

add_device-IsRouted :
    (g x : String) (now : ℕ) (rt : RouteTable) → IsRouted rt → IsRouted (add_device g x now rt)
unfolding add_device
add_device-IsRouted g x now rt routed d h =
    let listed = (gateway_for g now rt).devices in
    let stays = λ (p : Lists (lookup h rt.gateways) d) (same : g ≡ h).
      In-gateway_for g d now rt (rw (← same) at p) in
    elim (Bool-cases (contains listed x)) [
      | inl old ↦
          rw (old, add_device)
            (λ e. Lists-insert g h d _ rt.gateways (stays (routed d h e)) (λ _. routed d h e))
      | inr new ↦
          rw (new, add_device)
            (λ e. elim (Bool-cases (str_eq x d)) [
              | inl own ↦
                  Lists-insert g h d _ rt.gateways
                    (λ _. In-append_right d listed (x ∷ []) (inl ((eq_iff x d).0 own)))
                    (λ differs. ground (arith, eq_iff g h, lookup-insert x d g rt.devices))
              | inr other ↦
                  let p = routed d h (rw (lookup-insert, other) at e) in
                  Lists-insert g h d _ rt.gateways
                    (λ same. In-append_left d listed (x ∷ []) (stays p same)) (λ _. p)
            ])
    ]

unregister-IsRouted : (g : String) (rt : RouteTable) → IsRouted rt → IsRouted (unregister g rt).0
unfolding unregister
unregister-IsRouted g rt routed d h = elim (Option-cases (lookup g rt.gateways)) [
  | inl fresh ↦ rw (fresh, unregister) (routed d h)
  | inr (gw, found) ↦
      rw (found, unregister)
        (λ e. elim (Bool-cases (contains gw.devices d)) [
          | inl gone ↦ ground (arith, lookup-unroute_all gw.devices rt.devices d)
          | inr kept ↦
              let p = routed d h (rw (lookup-unroute_all, kept) at e) in
              elim (Bool-cases (str_eq g h)) [
                | inl same ↦ absurd (
                    ground (
                      arith,
                      In→contains gw.devices d (rw found at (rw (← (eq_iff g h).0 same) at p)),
                    ))
                | inr differs ↦ rw (lookup-remove, differs) p
              ]
        ])
]

update_heartbeat-IsRouted :
    (g : String) (now : ℕ) (rt : RouteTable) → IsRouted rt → IsRouted (update_heartbeat g now rt).0
unfolding update_heartbeat
update_heartbeat-IsRouted g now rt routed = elim (Option-cases (lookup g rt.gateways)) [
  | inl fresh ↦ rw (fresh, update_heartbeat) routed
  | inr (gw, found) ↦
      rw (found, update_heartbeat) (IsRouted-update rt g gw _ found (λ d listed. listed) routed)
]

set_gateway_status-IsRouted :
    (g status : String) (rt : RouteTable)
    → IsRouted rt
    → IsRouted (set_gateway_status g status rt).0
unfolding set_gateway_status
set_gateway_status-IsRouted g status rt routed = elim (Option-cases (lookup g rt.gateways)) [
  | inl fresh ↦ rw (fresh, set_gateway_status) routed
  | inr (gw, found) ↦ elim (Bool-cases (str_eq gw.status status)) [
    | inl same ↦ rw (found, set_gateway_status, same) routed
    | inr differs ↦
        rw (found, set_gateway_status, differs)
          (IsRouted-update rt g gw _ found (λ d listed. listed) routed)
  ]
]

run-IsRouted : (op : Operation) (rt : RouteTable) → IsRouted rt → IsRouted (run op rt)
unfolding run
run-IsRouted (register_op gw now) rt = register-IsRouted gw now rt
run-IsRouted (add_device_op g d now) rt = add_device-IsRouted g d now rt
run-IsRouted (unregister_op g) rt = unregister-IsRouted g rt
run-IsRouted (update_heartbeat_op g now) rt = update_heartbeat-IsRouted g now rt
run-IsRouted (set_gateway_status_op g s) rt = set_gateway_status-IsRouted g s rt

run_all-IsRouted :
    (ops : List Operation) (rt : RouteTable) → IsRouted rt → IsRouted (run_all ops rt)
unfolding run_all
run_all-IsRouted [] rt h = h
run_all-IsRouted (op ∷ ops) rt h = run_all-IsRouted ops (run op rt) (run-IsRouted op rt h)

pub reachable-IsRouted : (ops : List Operation) → IsRouted (run_all ops new_route_table)
reachable-IsRouted ops = run_all-IsRouted ops new_route_table (λ d g e. unfold lookup in cc)

-- After any operations on a new table, a route never dangles: where the table routes a device to a
-- gateway, that gateway is there and lists the device, and `Lookup` returns its URL.
pub lookup_device-reachable :
    (ops : List Operation) (d g : String)
    → lookup d (run_all ops new_route_table).devices ≡ some g
    → (gw : GatewayMeta) × (lookup g (run_all ops new_route_table).gateways ≡ some gw)
      × In d gw.devices
      × (lookup_device d (run_all ops new_route_table) ≡ some gw.url)
unfolding lookup_device
lookup_device-reachable ops d g e =
    let rt = run_all ops new_route_table in
    elim (Option-cases (lookup g rt.gateways)) [
      | inl gone ↦ absurd (rw gone at (reachable-IsRouted ops d g e))
      | inr (gw, found) ↦
          (gw, found, rw found at (reachable-IsRouted ops d g e), rw (e, lookup_device, found) refl)
    ]
