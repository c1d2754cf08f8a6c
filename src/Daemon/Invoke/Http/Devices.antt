-- ===== src/Daemon/Invoke/Http/Devices.antt =====
-- Who gets the list of devices, and what it shows.
use devagent.Base.{
  ℕ, ◌≡◌, inl, inr, refl, sym, ℤ, true, Option, none, some, List, [], ◌∷◌, arith, Bool-cases, ok,
  err, Result-cases, All, map,
}
use devagent.Model.Capability.{DeviceConfig, sanitized}
use devagent.Model.Capability.Sanitized.{NoSecret, sanitized_lem}
use devagent.Auth.{TokenClaims, verify}
use devagent.Daemon.Registry.{RegisteredDevice, list_devices}
use devagent.Daemon.Invoke.{Platform}
use devagent.Daemon.Invoke.Http.{Method, get, post, other_method, Request, Server, trim_bearer}
use devagent.Daemon.Invoke.Http.Queries.{authorized, handle_http_devices}

abbrev pub IsSecretFree : DeviceConfig → Type 0
IsSecretFree c = All NoSecret c.capabilities × All NoSecret c.device.capabilities

sanitized-IsSecretFree :
    (devices : List RegisteredDevice) → All IsSecretFree (map (λ d. sanitized d.config) devices)
sanitized-IsSecretFree [] = tt
sanitized-IsSecretFree (d ∷ devices) =
    let (outer, inner, same) = sanitized_lem d.config "" in
    ((outer, inner), sanitized-IsSecretFree devices)

module _ (platform : Platform) where
  open platform use {token_lib}

  -- No secret is configured, or the header carries a token that verifies under it.
  abbrev pub MayList : Option (List ℕ) → List ℕ → ℤ → Type 0
  MayList none header now = Unit
  MayList (some secret) header now =
      (claims : TokenClaims) × (verify token_lib secret (trim_bearer header) now ≡ ok claims)

  by_token :
      (token secret header : List ℕ) (now : ℤ)
      → trim_bearer header ≡ token
      → authorized platform (some secret) header now ≡ true
      → MayList (some secret) header now
  unfolding authorized
  by_token [] secret header now cut passed = absurd (ground (arith, cut))
  by_token (c ∷ cs) secret header now cut passed =
      elim (Result-cases (verify token_lib secret (trim_bearer header) now)) [
        | inr verified ↦ verified
        | inl (e, refused) ↦
            let refused' : verify token_lib secret (c ∷ cs) now ≡ err e = rw (sym cut) refused in
            absurd (ground (arith, cut, refused'))
      ]

  authorized-MayList :
      (secret : Option (List ℕ)) (header : List ℕ) (now : ℤ)
      → authorized platform secret header now ≡ true
      → MayList secret header now
  authorized-MayList none header now passed = tt
  authorized-MayList (some secret) header now passed =
      by_token (trim_bearer header) secret header now refl passed

  listed_by :
      (method : Method) (server : Server platform) (request : Request) (now : ℤ)
      (cfgs : List DeviceConfig)
      → request.method ≡ method
      → handle_http_devices platform server request now ≡ ok cfgs
      → (request.method ≡ get)
        × MayList server.token_secret request.authorization now
        × (cfgs ≡ map (λ d. sanitized d.config) (list_devices server.registry))
  unfolding handle_http_devices
  listed_by post server request now cfgs m listed = absurd (ground (arith, m))
  listed_by other_method server request now cfgs m listed = absurd (ground (arith, m))
  listed_by get server request now cfgs m listed =
      elim (Bool-cases (authorized platform server.token_secret request.authorization now)) [
        | inr refused ↦ absurd (ground (arith, m))
        | inl passed ↦ (
          m,
          authorized-MayList server.token_secret request.authorization now passed,
          ground (arith, m),
        )
      ]

  -- If `/devices` answers with a list, then the request was a GET whose header carries a token that
  -- verifies under the server's secret (if one is configured), and no capability that is sent, of
  -- either list of any configuration, holds an HMAC secret.
  pub handle_http_devices-MayList :
      (server : Server platform) (request : Request) (now : ℤ) (cfgs : List DeviceConfig)
      → handle_http_devices platform server request now ≡ ok cfgs
      → (request.method ≡ get)
        × MayList server.token_secret request.authorization now
        × All IsSecretFree cfgs
  handle_http_devices-MayList server request now cfgs listed =
      let (m, may, same) = listed_by request.method server request now cfgs refl listed in
      (m, may, rw (same) (sanitized-IsSecretFree (list_devices server.registry)))
