-- ===== src/Sidecar/Forward/Outcomes.antt =====
-- How a forwarded call ends, `ForwardInvoke` of internal/sidecar/router.go, and what its job says then.
use devagent.Base.{
  ◌⊎◌, ℕ, ◌≡◌, refl, ℤ, ◌+ℤ◌, ◌≤ℤ◌, String, true, false, Option, none, some, List, [], Option-cases,
  Bool-cases, inl, inr, Result, ok, err,
}
use devagent.Model.RouteTable.{RouteTable, lookup_device}
use devagent.Daemon.Invoke.{Platform}
use devagent.Daemon.Invoke.Http.{
  Server, Handled, json, Reply, refusal, too_many_requests, dispatch, check_token,
}
use devagent.Sidecar.Forward.{
  ForwardMessage, ForwardError, route_not_found, invoke_daemon, decode_response, token_ttl,
  auth_header, forward_invoke,
}
use devagent.Sidecar.Forward.Delivery.{
  Network, Return, in_time, before_header, in_body, as_invoke, header_text, arrived, decoded, send,
  limited, lets_pass, dispatch-replies, passes, arrived-limited, arrived-dispatched,
}
use devagent.Sidecar.Progress.{Job}
use devagent.Sidecar.Server.{SidecarServer, settle, handle_get_job_status}
use devagent.Sidecar.Server.Dispatch.{settled, settle-pending}

-- `err.Error()`
abbrev pub reported :
    {A : Type 0} → (ForwardError → String) → Result ForwardError A → Result String A
reported text (ok reply) = ok reply
reported text (err e) = err (text e)

module _ (platform : Platform) (marshal : ForwardMessage → List ℕ)
    (network : Network platform) where
  -- What the daemon does with the call, and its reply: the rate limiter refuses it and nothing happens,
  -- or it is handled as `dispatch` does, whose reply comes back.
  pub data Handling (server : Server platform) (message : ForwardMessage)
      (handled : Handled platform) (reply : Reply platform) : Type 0 where
    rate_limited :
        lets_pass platform marshal network server ≡ false
        → reply ≡ refusal platform "rate_limited" too_many_requests
        → handled.effects ≡ []
        → Handling server message handled reply
    served :
        lets_pass platform marshal network server ≡ true
        → handled ≡ dispatch platform (limited platform marshal network server) (as_invoke message)
        → handled.response ≡ json 200 reply
        → Handling server message handled reply

  -- How `ForwardInvoke` ends.
  pub data Ends (message : ForwardMessage) (header : Option (List ℕ)) (rt : RouteTable)
      (result : Result ForwardError (Reply platform)) : Type 0 where
    unrouted :
        lookup_device message.device_id rt ≡ none
        → result ≡ err (route_not_found message.device_id)
        → Ends message header rt result
    unreachable :
        (url : String)
        → lookup_device message.device_id rt ≡ some url
        → network.servers url ≡ none
        → result ≡ err invoke_daemon
        → Ends message header rt result
    lost :
        (url : String) (server : Server platform) (reply : Reply platform)
        → lookup_device message.device_id rt ≡ some url
        → network.servers url ≡ some server
        → ((network.return_of url ≡ before_header) × (result ≡ err invoke_daemon))
          ⊎ ((network.return_of url ≡ in_body) × (result ≡ err decode_response))
        → Handling server message (arrived platform marshal network server header message) reply
        → Ends message header rt result
    answered :
        (url : String) (server : Server platform) (reply : Reply platform)
        → lookup_device message.device_id rt ≡ some url
        → network.servers url ≡ some server
        → network.return_of url ≡ in_time
        → result ≡ ok reply
        → Handling server message (arrived platform marshal network server header message) reply
        → Ends message header rt result

  handling :
      (server : Server platform) (header : Option (List ℕ)) (message : ForwardMessage)
      → platform.parse (marshal message) ≡ some (as_invoke message)
      → check_token platform server.token_secret
          (header_text header)
          network.now
          (as_invoke message)
        ≡ none
      → (reply : Reply platform) × ((decoded platform marshal network
              (arrived platform marshal network server header message).response
            ≡ some reply)
          × Handling server message (arrived platform marshal network server header message) reply)
  handling server header message parsed checked =
      elim (Bool-cases (lets_pass platform marshal network server)) [
        | inr refused ↦
            let (response, effects) =
              arrived-limited platform marshal network server header message refused in
            (
              refusal platform "rate_limited" too_many_requests,
              (rw (response) refl, rate_limited refused refl effects),
            )
        | inl passed ↦
            let same =
              arrived-dispatched platform marshal network server header message parsed passed
                checked in
            let (reply, replies) =
              dispatch-replies platform marshal network (limited platform marshal network server)
                (as_invoke message) in
            (reply, (rw (same, replies) refl, served passed same (rw (same) replies)))
      ]

  reached :
      (way : Return) (secret : Option (List ℕ)) (ttl now : ℤ) (message : ForwardMessage)
      (rt : RouteTable) (url : String) (server : Server platform) (reply : Reply platform)
      → let handled =
          arrived platform marshal network server
            (auth_header platform.token_lib secret ttl now)
            message in
        lookup_device message.device_id rt ≡ some url
        → network.servers url ≡ some server
        → network.return_of url ≡ way
        → decoded platform marshal network handled.response ≡ some reply
        → Handling server message handled reply
        → Ends message (auth_header platform.token_lib secret ttl now) rt (
            forward_invoke platform.token_lib secret ttl
              (send platform marshal network)
              message
              now
              rt)
  unfolding forward_invoke
  reached in_time secret ttl now message rt url server reply route up way read handled =
      answered url server reply route up way (rw (forward_invoke, route, up, way, read) refl)
        handled
  reached before_header secret ttl now message rt url server reply route up way read handled =
      lost url server reply route up (inl (way, rw (forward_invoke, route, up, way) refl)) handled
  reached in_body secret ttl now message rt url server reply route up way read handled =
      lost url server reply route up (inr (way, rw (forward_invoke, route, up, way) refl)) handled

  routed :
      (secret : Option (List ℕ)) (ttl now : ℤ) (message : ForwardMessage) (rt : RouteTable)
      (url : String)
      → platform.parse (marshal message) ≡ some (as_invoke message)
      → ((url : String) (server : Server platform)
          → network.servers url ≡ some server
          → server.token_secret ≡ secret)
      → network.now ≤ℤ (now +ℤ token_ttl ttl)
      → lookup_device message.device_id rt ≡ some url
      → Ends message (auth_header platform.token_lib secret ttl now) rt (
          forward_invoke platform.token_lib secret ttl
            (send platform marshal network)
            message
            now
            rt)
  unfolding forward_invoke
  routed secret ttl now message rt url parsed shared fresh route =
      elim (Option-cases (network.servers url)) [
        | inl down ↦ unreachable url route down (rw (forward_invoke, route, down) refl)
        | inr (server, up) ↦
            let header = auth_header platform.token_lib secret ttl now in
            let checked : check_token platform server.token_secret (header_text header) network.now
                  (as_invoke message)
                ≡ none =
              rw (shared url server up)
                (passes platform marshal network secret ttl now (as_invoke message) fresh) in
            let (reply, (read, handled)) = handling server header message parsed checked in
            reached (network.return_of url) secret ttl now message rt url server reply route up refl
              read handled
      ]

  -- A call that the sidecar forwards ends in one of four ways. Without a route it fails; with a daemon
  -- that is not reached it fails. If the daemon is reached, it does exactly one of two things: its rate
  -- limiter refuses the call and nothing else happens, or it handles exactly this call, after its rate
  -- limiter. If its response comes back whole within the client's timeout, the reply is returned; if
  -- not, `ForwardInvoke` fails although the daemon has done that. The token is no obstacle where
  -- sidecar and daemons have the same secret, the daemon reads the message that was written, and the
  -- call arrives before the token expires. The job of the call then says "completed" for every reply, a
  -- refusal or a timeout of the device included, and "error" where `ForwardInvoke` has failed.
  pub forward_invoke-Ends :
      (secret : Option (List ℕ)) (ttl now : ℤ) (message : ForwardMessage) (rt : RouteTable)
      (text : ForwardError → String) (s : SidecarServer (Reply platform))
      (job : Job (Reply platform))
      → platform.parse (marshal message) ≡ some (as_invoke message)
      → ((url : String) (server : Server platform)
          → network.servers url ≡ some server
          → server.token_secret ≡ secret)
      → network.now ≤ℤ (now +ℤ token_ttl ttl)
      → handle_get_job_status (Reply platform) message.job_id s ≡ some job
      → let result =
          forward_invoke platform.token_lib secret ttl
            (send platform marshal network)
            message
            now
            rt in
        Ends message (auth_header platform.token_lib secret ttl now) rt result
        × (handle_get_job_status
              (Reply platform)
              message.job_id
              (settle (Reply platform) message.job_id (reported text result) s)
            ≡ some (settled (Reply platform) (reported text result) job))
  unfolding forward_invoke
  forward_invoke-Ends secret ttl now message rt text s job parsed shared fresh found =
      let result =
        forward_invoke platform.token_lib secret ttl (send platform marshal network) message now
          rt in
      (
        elim (Option-cases (lookup_device message.device_id rt)) [
          | inl missing ↦ unrouted missing (rw (forward_invoke, missing) refl)
          | inr (url, route) ↦ routed secret ttl now message rt url parsed shared fresh route
        ],
        settle-pending (Reply platform) (reported text result) message.job_id job s found,
      )
