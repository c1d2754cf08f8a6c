-- ===== src/Model/RouteTable/Keyed.antt =====
-- Every gateway of a table stands under its own name, once.
use devagent.Base.{
  ℕ, String, ◌≡◌, refl, some, List, [], ◌∷◌, inl, inr, arith, str_eq, eq_iff, All, contains, Assoc,
  lookup, insert, remove, Bool-cases, Option-cases, IsMap, insert-IsMap, remove-IsMap,
}
use devagent.Model.RouteTable.{
  GatewayMeta, RouteTable, new_route_table, gateway_for, register, add_device, unregister,
  update_heartbeat, set_gateway_status,
}
use devagent.Model.RouteTable.Routes.{
  Operation, register_op, add_device_op, unregister_op, update_heartbeat_op, set_gateway_status_op,
  run, run_all,
}

abbrev pub IsKeyed : Assoc GatewayMeta → Type 0
IsKeyed = All (λ e. e.1.id ≡ e.0)

-- The map holds no key twice, and each gateway under its own name.
pub record IsTable (gws : Assoc GatewayMeta) : Type 0 where
  pub unique : IsMap gws
  pub keyed : IsKeyed gws

insert-IsKeyed :
    (k : String) (gw : GatewayMeta) (gws : Assoc GatewayMeta)
    → gw.id ≡ k
    → IsKeyed gws
    → IsKeyed (insert k gw gws)
unfolding insert
insert-IsKeyed k gw [] own h = (own, tt)
insert-IsKeyed k gw ((j, old) ∷ gws) own h =
    ground (arith, eq_iff j k, insert-IsKeyed k gw gws own h.1)

remove-IsKeyed : (k : String) (gws : Assoc GatewayMeta) → IsKeyed gws → IsKeyed (remove k gws)
unfolding remove
remove-IsKeyed k [] h = tt
remove-IsKeyed k ((j, gw) ∷ gws) h = ground (arith, remove-IsKeyed k gws h.1)

id-lookup :
    (k : String) (gw : GatewayMeta) (gws : Assoc GatewayMeta)
    → IsKeyed gws
    → lookup k gws ≡ some gw
    → gw.id ≡ k
unfolding lookup
id-lookup k gw [] h e = cc
id-lookup k gw ((j, old) ∷ gws) h e = ground (arith, eq_iff j k, id-lookup k gw gws h.1)

pub insert-IsTable :
    (k : String) (gw : GatewayMeta) (gws : Assoc GatewayMeta)
    → gw.id ≡ k
    → IsTable gws
    → IsTable (insert k gw gws)
insert-IsTable k gw gws own h = record {
  unique = insert-IsMap k gw gws h.unique;
  keyed = insert-IsKeyed k gw gws own h.keyed;
}

pub unregister-IsTable :
    (g : String) (rt : RouteTable) → IsTable rt.gateways → IsTable (unregister g rt).0.gateways
unfolding unregister
unregister-IsTable g rt h = elim (Option-cases (lookup g rt.gateways)) [
  | inl absent ↦ rw (absent, unregister) h
  | inr (gw, found) ↦
      rw (found, unregister)
        (record {
          unique = remove-IsMap g rt.gateways h.unique;
          keyed = remove-IsKeyed g rt.gateways h.keyed;
        })
]

update_heartbeat-IsTable :
    (g : String) (now : ℕ) (rt : RouteTable)
    → IsTable rt.gateways
    → IsTable (update_heartbeat g now rt).0.gateways
unfolding update_heartbeat
update_heartbeat-IsTable g now rt h = elim (Option-cases (lookup g rt.gateways)) [
  | inl absent ↦ rw (absent, update_heartbeat) h
  | inr (gw, found) ↦
      rw (found, update_heartbeat)
        (insert-IsTable g _ rt.gateways (id-lookup g gw rt.gateways h.keyed found) h)
]

pub set_gateway_status-IsTable :
    (g s : String) (rt : RouteTable)
    → IsTable rt.gateways
    → IsTable (set_gateway_status g s rt).0.gateways
unfolding set_gateway_status
set_gateway_status-IsTable g s rt h = elim (Option-cases (lookup g rt.gateways)) [
  | inl absent ↦ rw (absent, set_gateway_status) h
  | inr (gw, found) ↦ elim (Bool-cases (str_eq gw.status s)) [
    | inl same ↦ rw (found, set_gateway_status, same) h
    | inr differs ↦
        rw (found, set_gateway_status, differs)
          (insert-IsTable g _ rt.gateways (id-lookup g gw rt.gateways h.keyed found) h)
  ]
]

register-IsTable :
    (gw : GatewayMeta) (now : ℕ) (rt : RouteTable)
    → IsTable rt.gateways
    → IsTable (register gw now rt).gateways
unfolding register
register-IsTable gw now rt h = elim (Option-cases (lookup gw.id rt.gateways)) [
  | inl fresh ↦ rw (fresh, register) (insert-IsTable gw.id _ rt.gateways refl h)
  | inr (old, found) ↦
      rw (found, register)
        (insert-IsTable gw.id _ rt.gateways (id-lookup gw.id old rt.gateways h.keyed found) h)
]

id-gateway_for :
    (g : String) (now : ℕ) (rt : RouteTable) → IsTable rt.gateways → (gateway_for g now rt).id ≡ g
unfolding gateway_for
id-gateway_for g now rt h = elim (Option-cases (lookup g rt.gateways)) [
  | inl fresh ↦ rw (fresh, gateway_for) refl
  | inr (gw, found) ↦ rw (found, gateway_for) (id-lookup g gw rt.gateways h.keyed found)
]

add_device-IsTable :
    (g d : String) (now : ℕ) (rt : RouteTable)
    → IsTable rt.gateways
    → IsTable (add_device g d now rt).gateways
unfolding add_device
add_device-IsTable g d now rt h =
    let own = id-gateway_for g now rt h in
    elim (Bool-cases (contains (gateway_for g now rt).devices d)) [
      | inl old ↦ rw (old, add_device) (insert-IsTable g _ rt.gateways own h)
      | inr new ↦ rw (new, add_device) (insert-IsTable g _ rt.gateways own h)
    ]

run-IsTable :
    (op : Operation) (rt : RouteTable) → IsTable rt.gateways → IsTable (run op rt).gateways
unfolding run
run-IsTable (register_op gw now) rt h = register-IsTable gw now rt h
run-IsTable (add_device_op g d now) rt h = add_device-IsTable g d now rt h
run-IsTable (unregister_op g) rt h = unregister-IsTable g rt h
run-IsTable (update_heartbeat_op g now) rt h = update_heartbeat-IsTable g now rt h
run-IsTable (set_gateway_status_op g s) rt h = set_gateway_status-IsTable g s rt h

pub run_all-IsTable :
    (ops : List Operation) (rt : RouteTable)
    → IsTable rt.gateways
    → IsTable (run_all ops rt).gateways
unfolding run_all
run_all-IsTable [] rt h = h
run_all-IsTable (op ∷ ops) rt h = run_all-IsTable ops (run op rt) (run-IsTable op rt h)

pub reachable-IsTable : (ops : List Operation) → IsTable (run_all ops new_route_table).gateways
reachable-IsTable ops = run_all-IsTable ops new_route_table (record { unique = tt; keyed = tt })
