-- ===== src/Daemon/Invoke/Http/Queries.antt =====
-- internal/daemon/server.go: the handlers of `/devices` and `/readyz`.
use devagent.Base.{
  ℕ, ℤ, Bool, true, false, ◌&&◌, Option, none, some, List, [], ◌∷◌, ltb, if◌then◌else◌, Result, ok,
  err, length, map,
}
use devagent.Model.Capability.{DeviceConfig, sanitized}
use devagent.Auth.{verify}
use devagent.Daemon.Registry.{list_devices}
use devagent.Daemon.Invoke.{Platform}
use devagent.Daemon.Invoke.Http.{get, post, other_method, Request, trim_bearer, Server}

module _ (platform : Platform) where
  open platform use {token_lib}

  unfoldable pub authorized : Option (List ℕ) → List ℕ → ℤ → Bool
  unfolding trim_bearer
  authorized none header now = true
  authorized (some secret) header now = elim (trim_bearer header) [
    | [] ↦ false
    | c ∷ cs ↦ elim (verify token_lib secret (c ∷ cs) now) [ err e ↦ false | ok claims ↦ true ]
  ]

  -- The HTTP code that refuses the request, or the configurations that are sent.
  unfoldable pub handle_http_devices : Server platform → Request → ℤ → Result ℕ (List DeviceConfig)
  unfolding authorized list_devices
  handle_http_devices server request now = elim request.method [
    | get ↦
        if authorized server.token_secret request.authorization now
        then ok (map (λ d. sanitized d.config) (list_devices server.registry))
        else err 401
    | post ↦ err 405
    | other_method ↦ err 405
  ]

  pub record Readiness : Type 0 where
    pub ready : Bool
    pub serial_connected : Bool
    pub device_count : ℕ

  unfoldable pub handle_readyz : Server platform → Readiness
  unfolding list_devices
  handle_readyz server =
      let device_count = length (list_devices server.registry) in
      let serial_connected : Bool = elim server.hal [
        | none ↦ false
        | some hal ↦ hal.is_connected
      ] in
      record {
        ready = ltb 0 device_count && elim server.hal [ none ↦ true | some hal ↦ serial_connected ];
        serial_connected = serial_connected;
        device_count = device_count;
      }
