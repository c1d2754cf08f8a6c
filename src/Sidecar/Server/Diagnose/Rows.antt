-- ===== src/Sidecar/Server/Diagnose/Rows.antt =====
-- What a diagnosis tells about a device that one gateway lists.
use devagent.Base.{
  ℕ, ℤ, pos, ◌-ℤ◌, ◌≡◌, refl, String, true, Option, some, List, [], ◌∷◌, ◌++◌, arith, ltb_ℤ, lt→ltb,
  str_eq, eq_iff, if◌then◌else◌, Assoc, lookup, In, contains, inl, inr, ◌∙◌, ◌⊎◌, ◌↔◌, ◌<◌, ap,
  Bool-cases, In→contains,
}
use devagent.Model.RouteTable.{
  GatewayMeta, DeviceRow, rows_of, all_rows, all_devices, lookup_device,
}
use devagent.Model.RouteTable.{new_route_table}
use devagent.Model.RouteTable.Routes.{Operation, run_all, lookup_device-reachable}
use devagent.Auth.{TokenLib}
use devagent.Sidecar.Forward.{auth_header}
use devagent.Sidecar.Server.Diagnose.{
  Ready, Probe, no_request, no_answer, undecodable, answered, Diagnosis, diagnosed, first_row,
  row_status, row_age, link_state, handle_diagnose,
}

abbrev row_of : GatewayMeta → String → DeviceRow
row_of gw device_id = record {
  device_id = device_id;
  gateway_id = gw.id;
  gateway_url = gw.url;
  status = gw.status;
  last_heartbeat = gw.last_heartbeat;
}

first_row-rows_of :
    (device_id : String) (gw : GatewayMeta) (devices : List String) (rest : List DeviceRow)
    → first_row device_id (rows_of gw devices ++ rest) ≡ (
        if contains devices device_id then some (row_of gw device_id) else first_row device_id rest)
unfolding first_row rows_of contains
first_row-rows_of device_id gw [] rest = refl
first_row-rows_of device_id gw (d ∷ ds) rest =
    ground (arith, first_row-rows_of device_id gw ds rest, eq_iff d device_id)

-- Whichever gateway lists the device is this one.
abbrev pub OnlyListedBy : GatewayMeta → String → Assoc GatewayMeta → Type 0
OnlyListedBy gw device_id [] = Unit
OnlyListedBy gw device_id ((id, other) ∷ gws) =
    (contains other.devices device_id ≡ true → other ≡ gw) × OnlyListedBy gw device_id gws

-- The device is listed by some gateway.
abbrev pub IsListed : String → Assoc GatewayMeta → Type 0
IsListed device_id [] = ⊥
IsListed device_id ((id, gw) ∷ gws) =
    (contains gw.devices device_id ≡ true) ⊎ IsListed device_id gws

first_row-all_rows :
    (device_id : String) (gw : GatewayMeta) (gws : Assoc GatewayMeta)
    → OnlyListedBy gw device_id gws
    → IsListed device_id gws
    → first_row device_id (all_rows gws) ≡ some (row_of gw device_id)
unfolding all_rows
first_row-all_rows device_id gw [] only listed = absurd listed
first_row-all_rows device_id gw ((id, other) ∷ gws) (here, there) listed =
    first_row-rows_of device_id other other.devices (all_rows gws)
    ∙ elim (Bool-cases (contains other.devices device_id)) [
      | inl yes_here ↦ rw yes_here (ap (λ g. some (row_of g device_id)) (here yes_here))
      | inr not_here ↦ rw not_here (
          first_row-all_rows device_id gw gws there
            (elim listed [ inl also ↦ absurd (ground arith) | inr later ↦ later ]))
    ]

listed_at :
    (device_id g : String) (gw : GatewayMeta) (gws : Assoc GatewayMeta)
    → lookup g gws ≡ some gw
    → In device_id gw.devices
    → IsListed device_id gws
unfolding lookup
listed_at device_id g gw [] found m = absurd (ground arith)
listed_at device_id g gw ((id, other) ∷ gws) found m = elim (Bool-cases (str_eq id g)) [
  | inl here ↦
      let same : other ≡ gw = ground arith in inl (rw same (In→contains gw.devices device_id m))
  | inr there ↦ inr (listed_at device_id g gw gws (ground arith) m)
]

-- The daemon's answer is that its serial line is up and that it has a device.
abbrev pub IsReady : Probe → Type 0
IsReady probe =
    (ready : Ready) × (probe ≡ answered ready)
    × (ready.serial_connected ≡ true)
    × (ltb_ℤ (pos 0) ready.device_count ≡ true)

link_state_iff : (probe : Probe) → (link_state probe ≡ "ok") ↔ IsReady probe
unfolding link_state
link_state_iff no_request =
    (λ e. absurd (ground (arith, eq_iff "unknown" "ok")), λ r. absurd (ground arith))
link_state_iff no_answer =
    (λ e. absurd (ground (arith, eq_iff "unreachable" "ok")), λ r. absurd (ground arith))
link_state_iff undecodable =
    (λ e. absurd (ground (arith, eq_iff "unknown" "ok")), λ r. absurd (ground arith))
link_state_iff (answered ready) = (
  λ e. (
    ready,
    refl,
    ground (arith, eq_iff "not_ready" "ok"),
    ground (arith, eq_iff "not_ready" "ok"),
  ),
  λ r. ground arith,
)

module _ (lib : TokenLib) (secret : Option (List ℕ)) (ttl : ℤ) where
  -- After any operations on a new table, a device that is routed to a gateway and listed by no other one
  -- is diagnosed with that gateway's URL, its status and, where its heartbeat has been seen, the age
  -- of that; and the link to the device is "ok" exactly when the daemon at that URL, asked with the
  -- sidecar's token, answers that its serial line is up and that it has a device.
  pub handle_diagnose_lem :
      (ops : List Operation) (probe : String → Option (List ℕ) → Probe) (device_id g : String)
      (gw : GatewayMeta) (minted : ℤ) (now : ℕ)
      → lookup device_id (run_all ops new_route_table).devices ≡ some g
      → lookup g (run_all ops new_route_table).gateways ≡ some gw
      → OnlyListedBy gw device_id (run_all ops new_route_table).gateways
      → 0 < gw.last_heartbeat
      → (found : Diagnosis) × (handle_diagnose lib secret ttl probe
            (some device_id)
            minted
            now
            (run_all ops new_route_table)
          ≡ diagnosed found)
        × (found.gateway_url ≡ gw.url)
        × (found.gateway_status ≡ gw.status)
        × (found.heartbeat_age ≡ pos now -ℤ pos gw.last_heartbeat)
        × ((found.gateway_to_device ≡ "ok")
            ↔ IsReady (probe gw.url (auth_header lib secret ttl minted)))
  unfolding handle_diagnose lookup_device all_devices row_age row_status
  handle_diagnose_lem ops probe device_id g gw minted now routed known only seen =
      let rt = run_all ops new_route_table in
      let (held, there, listed, at_url) = lookup_device-reachable ops device_id g routed in
      let same : held ≡ gw = ground arith in
      let row =
        first_row-all_rows device_id gw rt.gateways only
          (listed_at device_id g gw rt.gateways known (rw same at listed)) in
      (
        record {
          device_id = device_id;
          gateway_url = gw.url;
          gateway_status = gw.status;
          gateway_to_device = link_state (probe gw.url (auth_header lib secret ttl minted));
          heartbeat_age = pos now -ℤ pos gw.last_heartbeat;
        },
        rw
            (
              handle_diagnose,
              lookup_device,
              routed,
              known,
              row,
              row_age,
              lt→ltb 0 gw.last_heartbeat seen,
            )
            refl,
        refl,
        refl,
        refl,
        link_state_iff (probe gw.url (auth_header lib secret ttl minted)),
      )
