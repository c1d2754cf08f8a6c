-- ===== src/Model/RouteTable/Stale.antt =====
-- `StaleGateways`, on a table whose map holds no key twice.
use devagent.Base.{
  ℕ, ◌+◌, String, ◌≡◌, refl, Bool, false, Option, none, some, List, [], ◌∷◌, arith, not, ◌&&◌, ltb,
  eq_iff, contains, Assoc, lookup, IsMap,
}
use devagent.Model.RouteTable.{
  GatewayMeta, new_route_table, whole_seconds, stale_from, stale_gateways,
}
use devagent.Model.RouteTable.Keyed.{reachable-IsTable}
use devagent.Model.RouteTable.Routes.{Operation, run_all}

-- The gateway has been silent for longer than the timeout.
abbrev pub is_silent : ℕ → ℕ → GatewayMeta → Bool
is_silent timeout now gw = ltb (gw.last_heartbeat + whole_seconds timeout) now

abbrev pub holds_of : (GatewayMeta → Bool) → Option GatewayMeta → Bool
holds_of p none = false
holds_of p (some gw) = p gw

contains-stale_from :
    (m o now : ℕ) (gws : Assoc GatewayMeta) (id : String)
    → IsMap gws
    → (contains (stale_from m o now gws).1 id ≡ holds_of (is_silent o now) (lookup id gws))
      × (contains (stale_from m o now gws).0 id
          ≡ holds_of (λ gw. not (is_silent o now gw) && is_silent m now gw) (lookup id gws))
unfolding stale_from contains lookup
contains-stale_from m o now [] id h = (refl, refl)
contains-stale_from m o now ((k, gw) ∷ gws) id h =
    ground (arith, eq_iff k id, contains-stale_from m o now gws id h.1)

-- After any operations on a new table, `StaleGateways` puts into the offline list exactly the gateways
-- that were silent for longer than the offline timeout, and into the maintenance list exactly those
-- that were silent for longer than the maintenance timeout and are not in the other list.
pub stale_gateways_lem :
    (ops : List Operation) (maintenance offline now : ℕ) (id : String)
    → let rt = run_all ops new_route_table in
      let stale = stale_gateways maintenance offline now rt in
      (contains stale.1 id ≡ holds_of (is_silent offline now) (lookup id rt.gateways))
      × (contains stale.0 id
          ≡ holds_of
              (λ gw. not (is_silent offline now gw) && is_silent maintenance now gw)
              (lookup id rt.gateways))
unfolding stale_gateways
stale_gateways_lem ops m o now id = contains-stale_from m o now _ id (reachable-IsTable ops).unique
