-- ===== src/Sidecar/Forward/Delivery.antt =====
-- `ForwardInvoke` of internal/sidecar/router.go over a network whose hosts are daemons, each with its
-- handler of `/invoke` from internal/daemon/server.go. `marshal` writes a message as JSON.
use devagent.Base.{
  ℕ, ◌≡◌, inl, inr, refl, ℤ, ◌+ℤ◌, ◌≤ℤ◌, String, Bool, true, false, Option, none, some, List, [],
  Option-cases,
}
use devagent.Daemon.RateLimiter.{allow as allow_call}
use devagent.Daemon.Registry.{get_device}
use devagent.Daemon.Invoke.{Platform, InvokeMessage, invoke_core}
use devagent.Daemon.Invoke.Http.{
  post, Server, Handled, Response, http_error, json, Reply, refusal, too_many_requests,
  find_capability, given_params, reply_of, no_message, parse_body, check_token, dispatch,
  handle_body, handle_http_invoke,
}
use devagent.Sidecar.Forward.{ForwardMessage, token_ttl, auth_header}
use devagent.Sidecar.Forward.Handshake.{auth_header-check_token}

-- What the daemon reads of the message.
abbrev pub as_invoke : ForwardMessage → InvokeMessage
as_invoke message = record {
  device_id = message.device_id;
  capability = message.capability;
  request_id = message.request_id;
  params = message.params;
}

-- A missing header is read as an empty one.
abbrev pub header_text : Option (List ℕ) → List ℕ
header_text none = []
header_text (some header) = header

-- How the response of a daemon comes back to `httpClient`, whose timeout of 10 s runs over the whole
-- exchange: whole, or the timeout or an error of the network comes before its header, or in its body.
pub data Return : Type 0 where
  in_time before_header in_body : Return

-- Where the sidecar stands in the network, and the clocks of the daemons.
pub record Network (platform : Platform) : Type 0 where
  pub servers : String → Option (Server platform)
  pub return_of : String → Return
  pub remote_addr : String
  pub instant : ℕ
  pub now : ℤ

module _ (platform : Platform) (marshal : ForwardMessage → List ℕ)
    (network : Network platform) where
  abbrev pub arrived : Server platform → Option (List ℕ) → ForwardMessage → Handled platform
  arrived server header message =
      handle_http_invoke platform server
        (record {
          method = post;
          remote_addr = network.remote_addr;
          authorization = header_text header;
          body = some (marshal message);
        })
        network.instant network.now

  -- What the sidecar decodes from a response.
  abbrev pub decoded : Response platform → Option (Reply platform)
  decoded (http_error code) = none
  decoded (json code reply) = some reply

  -- What `Do` and the decoder give of it.
  abbrev pub returned : Return → Option (Reply platform) → Option (Option (Reply platform))
  returned in_time reply = some reply
  returned before_header reply = none
  returned in_body reply = some none

  abbrev pub send : String → Option (List ℕ) → ForwardMessage → Option (Option (Reply platform))
  send url header message = elim (network.servers url) [
    | none ↦ none
    | some server ↦
        returned (network.return_of url) (decoded (arrived server header message).response)
  ]

  pub dispatch-replies :
      (server : Server platform) (msg : InvokeMessage)
      → (reply : Reply platform) × ((dispatch platform server msg).response ≡ json 200 reply)
  unfolding dispatch
  dispatch-replies server msg = elim (Option-cases (get_device msg.device_id server.registry)) [
    | inl missing ↦
        let reply : Reply platform = record (refusal platform "device_not_found" no_message) {
          request_id = msg.request_id;
          device_id = msg.device_id;
        } in
        (reply, rw (dispatch, missing) refl)
    | inr (dev, found) ↦
        elim (Option-cases (find_capability msg.capability dev.config.capabilities)) [
          | inl unknown ↦
              let reply : Reply platform =
                record (refusal platform "capability_not_found" no_message) {
                  request_id = msg.request_id;
                  device_id = msg.device_id;
                  capability = msg.capability;
                } in
              (reply, rw (dispatch, found, unknown) refl)
          | inr (capability, known) ↦
              let outcome =
                invoke_core platform server.hal server.seq_counter msg.device_id capability
                  (given_params msg.params) in
              (reply_of platform msg outcome.result, rw (dispatch, found, known) refl)
        ]
  ]

  -- The daemon's token check of a request of the sidecar with the same secret.
  pub passes :
      (secret : Option (List ℕ)) (ttl now : ℤ) (msg : InvokeMessage)
      → network.now ≤ℤ (now +ℤ token_ttl ttl)
      → check_token platform secret
          (header_text (auth_header platform.token_lib secret ttl now))
          network.now
          msg
        ≡ none
  unfolding check_token auth_header
  passes none ttl now msg fresh = refl
  passes (some secret) ttl now msg fresh =
      (auth_header-check_token platform secret ttl now network.now _ refl fresh).1 msg

  -- The server once its rate limiter has seen the call.
  abbrev pub limited : Server platform → Server platform
  limited server = record server {
    rate_limiter = (allow_call server.rate_limiter network.remote_addr network.instant).0;
  }

  abbrev pub lets_pass : Server platform → Bool
  lets_pass server = (allow_call server.rate_limiter network.remote_addr network.instant).1

  pub arrived-limited :
      (server : Server platform) (header : Option (List ℕ)) (message : ForwardMessage)
      → lets_pass server ≡ false
      → ((arrived server header message).response
          ≡ json 429 (refusal platform "rate_limited" too_many_requests))
        × ((arrived server header message).effects ≡ [])
  unfolding handle_http_invoke
  arrived-limited server header message verdict =
      (rw (handle_http_invoke, verdict) refl, rw (handle_http_invoke, verdict) refl)

  pub arrived-dispatched :
      (server : Server platform) (header : Option (List ℕ)) (message : ForwardMessage)
      → platform.parse (marshal message) ≡ some (as_invoke message)
      → lets_pass server ≡ true
      → check_token platform server.token_secret
          (header_text header)
          network.now
          (as_invoke message)
        ≡ none
      → arrived server header message ≡ dispatch platform (limited server) (as_invoke message)
  unfolding handle_http_invoke handle_body parse_body
  arrived-dispatched server header message parsed verdict checked =
      rw (handle_http_invoke, verdict, handle_body, parsed, checked) refl
