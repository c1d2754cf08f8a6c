-- ===== src/Sidecar/Forward.antt =====
-- internal/sidecar/router.go: the requests to a daemon. The network is a parameter. `now` is the Unix
-- second of the request, and a duration is in whole seconds.
pub mod Handshake
pub mod Discovery
pub mod Delivery
pub mod Outcomes
use devagent.Base.{
  ℕ, ℤ, pos, String, Bool, Option, none, some, List, [], ◌∷◌, ◌++◌, leb_ℤ, if◌then◌else◌, Result,
  ok, err, codes, str_eq,
}
use devagent.Model.Capability.{DeviceConfig}
use devagent.Model.RouteTable.{GatewayMeta, RouteTable, register, add_device, lookup_device}
use devagent.Config.{SidecarSettings, default_global_config}
use devagent.Auth.{TokenLib, mint}
use devagent.Daemon.Payload.{Params}

pub record Router : Type 0 where
  pub token_secret : Option (List ℕ)
  pub token_ttl : ℤ
  pub cfg : SidecarSettings

-- A token manager is made for a secret that is not empty, and a missing configuration is the default's.
unfoldable pub new_router : String → ℤ → Option SidecarSettings → Router
new_router secret ttl cfg = record {
  token_secret = if str_eq secret "" then none else some (codes secret);
  token_ttl = ttl;
  cfg = elim cfg [ none ↦ default_global_config.sidecar | some c ↦ c ];
}

unfoldable pub token_ttl : ℤ → ℤ
token_ttl ttl = if leb_ℤ ttl (pos 0) then pos 300 else ttl

-- `setAuthHeader`: the header's value. The secret is `none` where no token manager was made.
unfoldable pub auth_header : TokenLib → Option (List ℕ) → ℤ → ℤ → Option (List ℕ)
unfolding token_ttl
auth_header lib none ttl now = none
auth_header lib (some secret) ttl now =
    some (codes "Bearer " ++ mint lib secret (codes "*" ∷ []) (token_ttl ttl) now)

-- The loop over the configurations that a daemon sent: the table, and what `onDiscover` is called with.
-- `clock id` is the second at which that device is added.
unfoldable pub add_all : (String → ℕ) → String → List DeviceConfig → RouteTable → RouteTable
add_all clock gw_id [] rt = rt
add_all clock gw_id (cfg ∷ cfgs) rt =
    add_all clock gw_id cfgs (add_device gw_id cfg.device.id (clock cfg.device.id) rt)

-- `fetch url` is the decoded answer to `GET url/devices`, if all went well.
unfoldable pub fetch_and_register_devices :
    (String → Option (List DeviceConfig))
    → (String → ℕ)
    → String
    → String
    → RouteTable
    → RouteTable × List DeviceConfig
unfolding add_all
fetch_and_register_devices fetch clock gw_id gw_url rt = elim (fetch gw_url) [
  | none ↦ (rt, [])
  | some cfgs ↦ (add_all clock gw_id cfgs rt, cfgs)
]

unfoldable pub add_static_gateway :
    (String → Option (List DeviceConfig))
    → (String → ℕ)
    → String
    → String
    → ℕ
    → RouteTable
    → RouteTable × List DeviceConfig
unfolding fetch_and_register_devices
add_static_gateway fetch clock gw_id gw_url now rt =
    fetch_and_register_devices fetch clock gw_id gw_url (
      register (record { id = gw_id; url = gw_url; devices = []; last_heartbeat = 0; status = "" })
        now rt)

pub record ForwardMessage : Type 0 where
  pub request_id : String
  pub device_id : String
  pub capability : String
  pub params : Option Params
  pub job_id : String

pub data ForwardError : Type 0 where
  route_not_found : String → ForwardError
  invoke_daemon decode_response : ForwardError

module _ {Reply : Type 0} (lib : TokenLib) (secret : Option (List ℕ)) (ttl : ℤ) where
  -- `send url header message` is `none` where the request failed, and holds `none` where the answer
  -- was no message.
  unfoldable pub forward_invoke :
      (String → Option (List ℕ) → ForwardMessage → Option (Option Reply))
      → ForwardMessage
      → ℤ
      → RouteTable
      → Result ForwardError Reply
  unfolding auth_header
  forward_invoke send message now rt = elim (lookup_device message.device_id rt) [
    | none ↦ err (route_not_found message.device_id)
    | some gw_url ↦ elim (send gw_url (auth_header lib secret ttl now) message) [
      | none ↦ err invoke_daemon
      | some none ↦ err decode_response
      | some (some reply) ↦ ok reply
    ]
  ]
