-- ===== src/Daemon/Invoke/Http.antt =====
-- internal/daemon/server.go: the handler of `/invoke`. A request is what it
-- reads of it, and it returns the server, the response and what was done outside the
-- process. `instant` is the clock of the rate limiter, `now` the Unix second.
pub mod Access
pub mod Devices
pub mod Limits
pub mod Queries
use devagent.Base.{
  ℕ, ◌+◌, ℤ, pos, String, Bool, true, false, not, ◌&&◌, Option, none, some, List, [], ◌∷◌, ◌++◌,
  ltb, str_eq, if◌then◌else◌, Result, ok, err, codes, has_prefix, drop, length, map, lookup,
}
use devagent.Model.Capability.{Capability, DeviceConfig, sanitized}
use devagent.Auth.{TokenClaims, TokenError, verify, check_cap}
use devagent.Daemon.RateLimiter.{RateLimiter, allow as allow_call}
use devagent.Daemon.Registry.{RegisteredDevice, DeviceRegistry, get_device, list_devices}
use devagent.Daemon.Payload.{Params}
use devagent.Daemon.Invoke.{
  Platform, InvokeMessage, HalError, CoreError, device_timeout, native_not_found, dcp_send,
  urpc_send, Status, named, Hal, ResultValue, no_value, InvokeResult, Effect, Outcome, invoke_core,
}

pub data Method : Type 0 where
  get post other_method : Method

-- `body` is `none` if it could not be read.
pub record Request : Type 0 where
  pub method : Method
  pub remote_addr : String
  pub authorization : List ℕ
  pub body : Option (List ℕ)

pub data Message : Type 0 where
  no_message too_many_requests missing_token no_response missing_or_invalid_token : Message
  token_refused : TokenError → Message
  capability_not_allowed : String → String → Message
  failure : CoreError → Message

-- `strings.TrimPrefix(header, "Bearer ")`
unfoldable pub trim_bearer : List ℕ → List ℕ
unfolding has_prefix
trim_bearer header =
    if has_prefix header (codes "Bearer ") then drop (length (codes "Bearer ")) header else header

unfoldable pub find_capability : String → List Capability → Option Capability
find_capability name [] = none
find_capability name (cap ∷ caps) =
    if str_eq cap.name name then some cap else find_capability name caps

abbrev pub given_params : Option Params → Params
given_params none = []
given_params (some params) = params

unfoldable pub is_device_timeout : CoreError → Bool
is_device_timeout (dcp_send device_timeout) = true
is_device_timeout (urpc_send device_timeout) = true
is_device_timeout _ = false

module _ (platform : Platform) where
  open platform use {token_lib, parse}

  -- The fields of `SSEMessage` that a response sets, apart from its type and its timestamp.
  pub record Reply : Type 0 where
    pub request_id : String
    pub device_id : String
    pub capability : String
    pub status : Status
    pub message : Message
    pub result : ResultValue platform

  -- `http.Error`, or JSON with its HTTP code.
  pub data Response : Type 0 where
    http_error : ℕ → Response
    json : ℕ → Reply → Response

  -- `token_secret` is `none` where no token manager was made, for an empty secret.
  pub record Server : Type 0 where
    pub registry : DeviceRegistry
    pub rate_limiter : RateLimiter
    pub seq_counter : ℕ
    pub token_secret : Option (List ℕ)
    pub hal : Option (Hal platform)

  pub record Handled : Type 0 where
    pub server : Server
    pub response : Response
    pub effects : List (Effect platform)

  abbrev pub refusal : String → Message → Reply
  refusal status message = record {
    request_id = "";
    device_id = "";
    capability = "";
    status = named status;
    message = message;
    result = no_value;
  }

  -- The token's checks on an invocation: the response, if it is refused.
  unfoldable pub check_token : Option (List ℕ) → List ℕ → ℤ → InvokeMessage → Option Reply
  unfolding trim_bearer
  check_token none header now msg = none
  check_token (some secret) header now msg = elim (trim_bearer header) [
    | [] ↦ some (refusal "unauthorized" missing_token)
    | c ∷ cs ↦ elim (verify token_lib secret (c ∷ cs) now) [
      | err e ↦ some (refusal "unauthorized" (token_refused e))
      | ok claims ↦
          if check_cap claims (codes msg.device_id ++ b'.' ∷ codes msg.capability)
          then none
          else some (refusal "forbidden" (capability_not_allowed msg.device_id msg.capability))
    ]
  ]

  -- The response to an outcome of `invokeCore`.
  unfoldable pub reply_of : InvokeMessage → Result CoreError (InvokeResult platform) → Reply
  unfolding is_device_timeout
  reply_of msg (ok result) = record {
    request_id = msg.request_id;
    device_id = msg.device_id;
    capability = msg.capability;
    status = result.status;
    message = no_message;
    result = result.result;
  }
  reply_of msg (err e) = record {
    request_id = msg.request_id;
    device_id = msg.device_id;
    capability = msg.capability;
    status = if is_device_timeout e then named "timeout" else named "error";
    message = if is_device_timeout e then no_response else failure e;
    result = no_value;
  }

  -- From the look-up of the device on.
  unfoldable pub dispatch : Server → InvokeMessage → Handled
  unfolding find_capability reply_of get_device
  dispatch server msg = elim (get_device msg.device_id server.registry) [
    | none ↦ record {
      server = server;
      response = json 200 (record (refusal "device_not_found" no_message) {
        request_id = msg.request_id;
        device_id = msg.device_id;
      });
      effects = [];
    }
    | some dev ↦ elim (find_capability msg.capability dev.config.capabilities) [
      | none ↦ record {
        server = server;
        response = json 200 (record (refusal "capability_not_found" no_message) {
          request_id = msg.request_id;
          device_id = msg.device_id;
          capability = msg.capability;
        });
        effects = [];
      }
      | some cap ↦
          let outcome =
            invoke_core platform server.hal server.seq_counter msg.device_id cap
              (given_params msg.params) in
          record {
            server = record server { seq_counter = outcome.seq_counter };
            response = json 200 (reply_of msg outcome.result);
            effects = outcome.effects;
          }
    ]
  ]

  unfoldable pub parse_body : Option (List ℕ) → Option InvokeMessage
  parse_body none = none
  parse_body (some bytes) = parse bytes

  -- From the reading of the body on.
  unfoldable pub handle_body : Server → Request → ℤ → Handled
  unfolding parse_body check_token dispatch
  handle_body server request now = elim (parse_body request.body) [
    | none ↦ record { server = server; response = http_error 400; effects = [] }
    | some msg ↦ elim (check_token server.token_secret request.authorization now msg) [
      | some reply ↦ record { server = server; response = json 200 reply; effects = [] }
      | none ↦ dispatch server msg
    ]
  ]

  unfoldable pub handle_http_invoke : Server → Request → ℕ → ℤ → Handled
  unfolding handle_body
  handle_http_invoke server request instant now = elim request.method [
    | post ↦
        let (limiter, verdict) = allow_call server.rate_limiter request.remote_addr instant in
        let limited = record server { rate_limiter = limiter } in
        let handled = handle_body limited request now in
        if verdict then handled else record {
          server = limited;
          response = json 429 (refusal "rate_limited" too_many_requests);
          effects = [];
        }
    | get ↦ record { server = server; response = http_error 405; effects = [] }
    | other_method ↦ record { server = server; response = http_error 405; effects = [] }
  ]
