-- ===== src/Sidecar/Server/Diagnose.antt =====
-- internal/sidecar/server.go: `handleListDevices` and `handleDiagnose`. The network is a parameter, and
-- so is what the MCP library's `RequireString` makes of the arguments.
pub mod Rows
pub mod Readiness
use devagent.Base.{
  ℕ, ◌<◌, ℤ, pos, negsuc, ◌-ℤ◌, ◌≡◌, refl, String, Bool, true, false, ◌&&◌, Option, none, some,
  List, [], ◌∷◌, ◌++◌, arith, ltb, ltb_ℤ, str_eq, eq_iff, if◌then◌else◌, Assoc, lookup, In,
  contains, inl, inr, ◌∙◌, Bool-cases, All, ap, eq_refl, In→contains,
}
use devagent.Model.RouteTable.{
  RouteTable, GatewayMeta, DeviceRow, rows_of, all_rows, all_devices, lookup_device,
}
use devagent.Auth.{TokenLib}
use devagent.Sidecar.Forward.{auth_header}

-- The body of `/readyz`.
pub record Ready : Type 0 where
  pub serial_connected : Bool
  pub device_count : ℤ

-- How the probe of `/readyz` ends: no request could be made, no answer came, or one that is no JSON.
pub data Probe : Type 0 where
  no_request no_answer undecodable : Probe
  answered : Ready → Probe

pub record Diagnosis : Type 0 where
  pub device_id : String
  pub gateway_url : String
  pub gateway_status : String
  pub gateway_to_device : String
  pub heartbeat_age : ℤ

pub data DiagnoseResult : Type 0 where
  missing_argument : DiagnoseResult
  no_route : String → DiagnoseResult
  diagnosed : Diagnosis → DiagnoseResult

unfoldable pub handle_list_devices : RouteTable → List DeviceRow
handle_list_devices rt = all_devices rt

-- The loop over the rows, up to its `break`.
unfoldable pub first_row : String → List DeviceRow → Option DeviceRow
first_row device_id [] = none
first_row device_id (row ∷ rows) =
    if str_eq row.device_id device_id then some row else first_row device_id rows

unfoldable pub row_status : Option DeviceRow → String
row_status none = ""
row_status (some row) = row.status

-- The age of the heartbeat at the Unix second `now`, or -1.
unfoldable pub row_age : ℕ → Option DeviceRow → ℤ
row_age now none = negsuc 0
row_age now (some row) =
    if ltb 0 row.last_heartbeat then pos now -ℤ pos row.last_heartbeat else negsuc 0

unfoldable pub link_state : Probe → String
link_state no_request = "unknown"
link_state no_answer = "unreachable"
link_state undecodable = "unknown"
link_state (answered ready) =
    if ready.serial_connected && ltb_ℤ (pos 0) ready.device_count then "ok" else "not_ready"

module _ (lib : TokenLib) (secret : Option (List ℕ)) (ttl : ℤ) where
  -- `probe url header` is the request of `url/readyz`; `minted` is the second of its token.
  unfoldable pub handle_diagnose :
      (String → Option (List ℕ) → Probe) → Option String → ℤ → ℕ → RouteTable → DiagnoseResult
  unfolding first_row row_status row_age link_state
  handle_diagnose probe none minted now rt = missing_argument
  handle_diagnose probe (some device_id) minted now rt = elim (lookup_device device_id rt) [
    | none ↦ no_route device_id
    | some gw_url ↦
        let row = first_row device_id (all_devices rt) in
        diagnosed (record {
          device_id = device_id;
          gateway_url = gw_url;
          gateway_status = row_status row;
          gateway_to_device = link_state (probe gw_url (auth_header lib secret ttl minted));
          heartbeat_age = row_age now row;
        })
  ]
