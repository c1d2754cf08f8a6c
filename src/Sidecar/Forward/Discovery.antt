-- ===== src/Sidecar/Forward/Discovery.antt =====
-- What the route table knows after a gateway has been asked for its devices.
use devagent.Base.{
  In-append_cases, ℕ, ◌≡◌, ◌⊎◌, inl, inr, refl, ap, ◌∙◌, String, true, false, Option, none, some,
  List, [], ◌∷◌, ◌++◌, arith, Bool-cases, In, contains, contains→In, In-append_left,
  In-append_right, map, lookup, lookup-insert, eq_iff, eq_refl,
}
use devagent.Model.Capability.{DeviceConfig}
use devagent.Model.RouteTable.{
  GatewayMeta, RouteTable, register, add_device, gateway_for, gateway_online, lookup_device,
}
use devagent.Sidecar.Forward.{add_all, fetch_and_register_devices, add_static_gateway}

-- The gateway is known under this URL, with these devices, and each of them is routed to it.
record Serving (gw_id gw_url : String) (devices : List String) (rt : RouteTable) : Type 0 where
  gateway : GatewayMeta
  found : lookup gw_id rt.gateways ≡ some gateway
  at_url : gateway.url ≡ gw_url
  same_devices : gateway.devices ≡ devices
  routed : (d : String) → In d devices → lookup d rt.devices ≡ some gw_id

In-snoc : (e d : String) (ds : List String) → In e (ds ++ d ∷ []) → In e ds ⊎ (d ≡ e)
In-snoc e d [] (inl same) = inr same
In-snoc e d [] (inr m) = absurd m
In-snoc e d (x ∷ ds) (inl same) = inl (inl same)
In-snoc e d (x ∷ ds) (inr m) = elim (In-snoc e d ds m) [ inl n ↦ inl (inr n) | inr same ↦ inr same ]

module _ (gw_id gw_url : String) where
  listed_again :
      (devices : List String) (d : String) (now : ℕ) (rt : RouteTable)
      → contains devices d ≡ true
      → Serving gw_id gw_url devices rt
      → Serving gw_id gw_url devices (add_device gw_id d now rt)
  unfolding add_device gateway_for
  listed_again devices d now rt known s =
      let listed : contains s.gateway.devices d ≡ true = rw (s.same_devices) known in
      rw (add_device, gateway_for, s.found, listed)
        (record {
          gateway = s.gateway;
          found = rw (lookup-insert, eq_refl) refl;
          at_url = s.at_url;
          same_devices = s.same_devices;
          routed = s.routed;
        })

  newly_listed :
      (devices : List String) (d : String) (now : ℕ) (rt : RouteTable)
      → contains devices d ≡ false
      → Serving gw_id gw_url devices rt
      → Serving gw_id gw_url (devices ++ d ∷ []) (add_device gw_id d now rt)
  unfolding add_device gateway_for
  newly_listed devices d now rt new s =
      let unlisted : contains s.gateway.devices d ≡ false = rw (s.same_devices) new in
      rw (add_device, gateway_for, s.found, unlisted)
        (record {
          gateway = record s.gateway { devices = s.gateway.devices ++ d ∷ [] };
          found = rw (lookup-insert, eq_refl) refl;
          at_url = s.at_url;
          same_devices = ap (λ ds. ds ++ d ∷ []) s.same_devices;
          routed = λ e m. lookup-insert d e gw_id rt.devices ∙ elim (In-snoc e d devices m) [
            | inl old ↦ ground (arith, s.routed e old)
            | inr same ↦ ground (arith, eq_iff d e)
          ];
        })

  -- The gateway serves a list that holds all of these devices.
  record Holds (devices : List String) (rt : RouteTable) : Type 0 where
    held : List String
    serving : Serving gw_id gw_url held rt
    all_held : (d : String) → In d devices → In d held

  add_device-Holds :
      (devices : List String) (d : String) (now : ℕ) (rt : RouteTable)
      → Serving gw_id gw_url devices rt
      → Holds (d ∷ devices) (add_device gw_id d now rt)
  add_device-Holds devices d now rt s = elim (Bool-cases (contains devices d)) [
    | inl known ↦ record {
      held = devices;
      serving = listed_again devices d now rt known s;
      all_held = λ e. elim [ inl same ↦ rw (← same) (contains→In devices d known) | inr old ↦ old ];
    }
    | inr new ↦ record {
      held = devices ++ d ∷ [];
      serving = newly_listed devices d now rt new s;
      all_held = λ e. elim [
        | inl same ↦ In-append_right e devices (d ∷ []) (inl same)
        | inr old ↦ In-append_left e devices (d ∷ []) old
      ];
    }
  ]

  abbrev ids_of : List DeviceConfig → List String
  ids_of cfgs = map (λ cfg. cfg.device.id) cfgs

  add_all-Holds :
      (clock : String → ℕ) (cfgs : List DeviceConfig) (devices : List String) (rt : RouteTable)
      → Serving gw_id gw_url devices rt
      → Holds (ids_of cfgs ++ devices) (add_all clock gw_id cfgs rt)
  unfolding add_all
  add_all-Holds clock [] devices rt s = record { held = devices; serving = s; all_held = λ e m. m }
  add_all-Holds clock (cfg ∷ cfgs) devices rt s =
      let id = cfg.device.id in
      let one = add_device-Holds devices id (clock id) rt s in
      let rest =
        add_all-Holds clock cfgs one.held (add_device gw_id id (clock id) rt) one.serving in
      record {
        held = rest.held;
        serving = rest.serving;
        all_held = λ e. elim [
          | inl same ↦
              rest.all_held e (In-append_right e (ids_of cfgs) one.held (one.all_held e (inl same)))
          | inr m ↦ rest.all_held e (elim (In-append_cases e (ids_of cfgs) devices m) [
            | inl new ↦ In-append_left e (ids_of cfgs) one.held new
            | inr old ↦ In-append_right e (ids_of cfgs) one.held (one.all_held e (inr old))
          ])
        ];
      }

  lookup_device-Serving :
      (devices : List String) (rt : RouteTable) (d : String)
      → Serving gw_id gw_url devices rt
      → In d devices
      → lookup_device d rt ≡ some gw_url
  unfolding lookup_device
  lookup_device-Serving devices rt d s m =
      let route = s.routed d m in rw (lookup_device, route, s.found) (ap some s.at_url)

  register-Serving :
      (now : ℕ) (rt : RouteTable) (gw : GatewayMeta)
      → gw.id ≡ gw_id
      → gw.url ≡ gw_url
      → gw.devices ≡ []
      → lookup gw_id rt.gateways ≡ none
      → Serving gw_id gw_url [] (register gw now rt)
  unfolding register
  register-Serving now rt gw named at_url without new =
      let unknown : lookup gw.id rt.gateways ≡ none = rw (named) new in
      rw (register, unknown, named, without)
        (record {
          gateway = record {
            id = gw_id;
            url = gw.url;
            devices = [];
            last_heartbeat = now;
            status = gateway_online;
          };
          found = rw (lookup-insert, eq_refl) refl;
          at_url = at_url;
          same_devices = refl;
          routed = λ d m. absurd m;
        })

-- A gateway that is not yet known and is added by its URL: every device that its daemon answers with is
-- found under that URL from then on.
pub lookup_device-add_static_gateway :
    (fetch : String → Option (List DeviceConfig)) (clock : String → ℕ) (gw_id gw_url : String)
    (now : ℕ) (rt : RouteTable) (cfgs : List DeviceConfig) (id : String)
    → lookup gw_id rt.gateways ≡ none
    → fetch gw_url ≡ some cfgs
    → In id (map (λ cfg. cfg.device.id) cfgs)
    → lookup_device id (add_static_gateway fetch clock gw_id gw_url now rt).0 ≡ some gw_url
unfolding add_static_gateway fetch_and_register_devices
lookup_device-add_static_gateway fetch clock gw_id gw_url now rt cfgs id new answer m =
    let gw : GatewayMeta = record {
      id = gw_id;
      url = gw_url;
      devices = [];
      last_heartbeat = 0;
      status = "";
    } in
    let start = register-Serving gw_id gw_url now rt gw refl refl refl new in
    let end = add_all-Holds gw_id gw_url clock cfgs [] (register gw now rt) start in
    rw (add_static_gateway, fetch_and_register_devices, answer)
      (lookup_device-Serving gw_id gw_url end.held (add_all clock gw_id cfgs (register gw now rt))
        id end.serving (end.all_held id (In-append_left id (map (λ cfg. cfg.device.id) cfgs) [] m)))
