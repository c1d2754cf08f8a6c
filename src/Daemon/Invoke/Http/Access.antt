-- ===== src/Daemon/Invoke/Http/Access.antt =====
-- What a request must have passed before anything happens outside the daemon.
use devagent.Base.{
  ℕ, ◌≡◌, ◌≢◌, inl, inr, refl, sym, ℤ, true, Option, none, some, List, [], ◌∷◌, ◌++◌, arith,
  Bool-cases, Option-cases, ok, err, Result-cases, codes,
}
use devagent.Model.Capability.{Capability}
use devagent.Auth.{TokenClaims, verify, check_cap}
use devagent.Daemon.RateLimiter.{allow as allow_call}
use devagent.Daemon.Registry.{RegisteredDevice, get_device}
use devagent.Daemon.Invoke.{Platform, InvokeMessage, invoke_core}
use devagent.Daemon.Invoke.Http.{
  Request, Method, post, get, other_method, trim_bearer, find_capability, given_params, Server,
  Handled, check_token, dispatch, parse_body, handle_body, handle_http_invoke,
}

module _ (platform : Platform) where
  open platform use {token_lib}

  abbrev pub capability_name : InvokeMessage → List ℕ
  capability_name msg = codes msg.device_id ++ b'.' ∷ codes msg.capability

  -- The header carries a token that verifies under the secret and grants the message's capability.
  pub record Grants (secret header : List ℕ) (now : ℤ) (msg : InvokeMessage) : Type 0 where
    pub claims : TokenClaims
    pub verified : verify token_lib secret (trim_bearer header) now ≡ ok claims
    pub covered : check_cap claims (capability_name msg) ≡ true

  -- No secret is configured, or the header grants the capability under it.
  abbrev pub MayInvoke : Option (List ℕ) → List ℕ → ℤ → InvokeMessage → Type 0
  MayInvoke none header now msg = Unit
  MayInvoke (some secret) header now msg = Grants secret header now msg

  -- The server has the device and the device the capability, and the call of it has these effects.
  pub record Called (server : Server platform) (msg : InvokeMessage) (handled : Handled platform)
      : Type 0 where
    pub device : RegisteredDevice
    pub capability : Capability
    pub registered : get_device msg.device_id server.registry ≡ some device
    pub declared : find_capability msg.capability device.config.capabilities ≡ some capability
    pub same_effects :
        handled.effects
        ≡ (invoke_core platform server.hal server.seq_counter msg.device_id capability
            (given_params msg.params)).effects

  verified_claims :
      (secret token header : List ℕ) (now : ℤ) (msg : InvokeMessage)
      → trim_bearer header ≡ token
      → check_token platform (some secret) header now msg ≡ none
      → Grants secret header now msg
  unfolding check_token
  verified_claims secret [] header now msg cut passed = absurd (ground (arith, cut))
  verified_claims secret (c ∷ cs) header now msg cut passed =
      elim (Result-cases (verify token_lib secret (trim_bearer header) now)) [
        | inl (e, refused) ↦
            let refused' : verify token_lib secret (c ∷ cs) now ≡ err e = rw (sym cut) refused in
            absurd (ground (arith, cut, refused'))
        | inr (claims, verified) ↦
            let verified' : verify token_lib secret (c ∷ cs) now ≡ ok claims =
              rw (sym cut) verified in
            record {
              claims = claims;
              verified = verified;
              covered = ground (arith, cut, verified');
            }
      ]

  check_token-MayInvoke :
      (secret : Option (List ℕ)) (header : List ℕ) (now : ℤ) (msg : InvokeMessage)
      → check_token platform secret header now msg ≡ none
      → MayInvoke secret header now msg
  check_token-MayInvoke none header now msg passed = tt
  check_token-MayInvoke (some secret) header now msg passed =
      verified_claims secret (trim_bearer header) header now msg refl passed

  dispatch-Called :
      (server : Server platform) (msg : InvokeMessage)
      → (dispatch platform server msg).effects ≢ []
      → Called server msg (dispatch platform server msg)
  unfolding dispatch
  dispatch-Called server msg acted =
      elim (Option-cases (get_device msg.device_id server.registry)) [
        | inl missing ↦ absurd (acted (rw (dispatch, missing) refl))
        | inr (device, registered) ↦
            elim (Option-cases (find_capability msg.capability device.config.capabilities)) [
              | inl missing ↦ absurd (acted (rw (dispatch, registered, missing) refl))
              | inr (capability, declared) ↦ record {
                device = device;
                capability = capability;
                registered = registered;
                declared = declared;
                same_effects = rw (dispatch, registered, declared) refl;
              }
            ]
      ]

  -- The request has passed every check before the dispatch.
  pub record Admitted (server : Server platform) (request : Request) (instant : ℕ) (now : ℤ)
      (msg : InvokeMessage) : Type 0 where
    pub posted : request.method ≡ post
    pub within_rate : (allow_call server.rate_limiter request.remote_addr instant).1 ≡ true
    pub parsed : parse_body platform request.body ≡ some msg
    pub granted : MayInvoke server.token_secret request.authorization now msg

  handle_body-Called :
      (server : Server platform) (request : Request) (now : ℤ)
      → (handle_body platform server request now).effects ≢ []
      → (msg : InvokeMessage) × (parse_body platform request.body ≡ some msg)
        × MayInvoke server.token_secret request.authorization now msg
        × Called server msg (handle_body platform server request now)
  unfolding handle_body
  handle_body-Called server request now acted =
      elim (Option-cases (parse_body platform request.body)) [
        | inl broken ↦ absurd (acted (rw (handle_body, broken) refl))
        | inr (msg, parsed) ↦
            elim (Option-cases
              (check_token platform server.token_secret request.authorization now msg)) [
                | inr (reply, refused) ↦ absurd (acted (rw (handle_body, parsed, refused) refl))
                | inl passed ↦
                    let same : handle_body platform server request now
                        ≡ dispatch platform server msg =
                      rw (handle_body, parsed, passed) refl in
                    let called = dispatch-Called server msg (λ e. acted (rw (same) e)) in
                    (
                      msg,
                      parsed,
                      check_token-MayInvoke server.token_secret request.authorization now msg
                          passed,
                      rw (same) called,
                    )
              ]
      ]

  each_method :
      (method : Method) (server : Server platform) (request : Request) (instant : ℕ) (now : ℤ)
      → request.method ≡ method
      → (handle_http_invoke platform server request instant now).effects ≢ []
      → (msg : InvokeMessage) × Admitted server request instant now msg
        × Called server msg (handle_http_invoke platform server request instant now)
  unfolding handle_http_invoke
  each_method get server request instant now m acted =
      absurd (acted (rw (handle_http_invoke, m) refl))
  each_method other_method server request instant now m acted =
      absurd (acted (rw (handle_http_invoke, m) refl))
  each_method post server request instant now m acted =
      let call = allow_call server.rate_limiter request.remote_addr instant in
      let limited : Server platform = record server { rate_limiter = call.0 } in
      elim (Bool-cases call.1) [
        | inr refused ↦ absurd (acted (rw (handle_http_invoke, m, refused) refl))
        | inl within ↦
            let same : handle_http_invoke platform server request instant now
                ≡ handle_body platform limited request now =
              rw (handle_http_invoke, m, within) refl in
            let (msg, parsed, granted, called) =
              handle_body-Called limited request now (λ e. acted (rw (same) e)) in
            (
              msg,
              record { posted = m; within_rate = within; parsed = parsed; granted = granted },
              rw (same) (record {
                device = called.device;
                capability = called.capability;
                registered = called.registered;
                declared = called.declared;
                same_effects = called.same_effects;
              }),
            )
      ]

  -- If an invocation has any effect outside the daemon, then it was a POST that the rate limiter let
  -- pass, its body was a message, the `Authorization` header carried a token that verifies under the
  -- server's secret and grants the capability of that message (if a secret is configured), the device
  -- was registered and had declared the capability, and the effects are those of calling it.
  pub handle_http_invoke-Admitted :
      (server : Server platform) (request : Request) (instant : ℕ) (now : ℤ)
      → (handle_http_invoke platform server request instant now).effects ≢ []
      → (msg : InvokeMessage) × Admitted server request instant now msg
        × Called server msg (handle_http_invoke platform server request instant now)
  handle_http_invoke-Admitted server request instant now acted =
      each_method request.method server request instant now refl acted
