-- ===== src/Tests/Invoke.antt =====
-- internal/daemon's calls and HTTP handlers: runs, and instances of the theorems.
use devagent.Base.{
  utf8, utf8_char, ℕ, ◌≤◌, ◌↔◌, ◌≡◌, ◌≢◌, refl, sym, ◌∙◌, pos, ◌+ℤ◌, true, none, some, List, [],
  ◌∷◌, ◌++◌, All, codes, length, lookup, insert, keep, remove, replace_all, decimal, has_prefix, ok,
  err, text_eq,
}
use devagent.Tests.Daemon.{set_led, shelf, registry}
use devagent.Tests.Libraries.{codec, mac, toy}
use devagent.Model.Capability.{sanitized}
use devagent.Auth.{has_cap, split_dot, verify_parts, mint, verify, check_cap}
use devagent.Protocol.Urpc.{UrpcRequest}
use devagent.Protocol.Dcp.{bytes_equal}
use devagent.Daemon.RateLimiter.{
  new_rate_limiter, allow as allow_call, maybe_sweep, sweep_due, sweep, take_token,
}
use devagent.Daemon.Registry
use devagent.Daemon.Registry.{
  list_devices, RegisteredDevice, DeviceRegistry, StateCodec, new_device_registry, set_state_path,
  get_device, remove_stale, snapshot, restore,
}
use devagent.Daemon.Payload.{
  Params, whole, format_urpc_payload, fill_template, replace_each, replace_placeholder, replacement,
}
use devagent.Daemon.Invoke.{
  Platform, InvokeMessage, device_timeout, next_seq, invoke_hal, invoke_urpc, to_byte,
  transport_urpc, Hal, sent_urpc, invoke_core,
}
use devagent.Daemon.Invoke.Core.{IsAllowed, invoke_core-IsAllowed}
use devagent.Daemon.Invoke.Http.{
  handle_body, parse_body, trim_bearer, dispatch, find_capability, Request, post, get, Server,
  handle_http_invoke, check_token,
}
use devagent.Daemon.Invoke.Http.Queries.{handle_readyz, handle_http_devices, authorized}
use devagent.Daemon.Invoke.Http.Access.{Admitted, Called, handle_http_invoke-Admitted}
use devagent.Daemon.Invoke.Http.Limits.{Arrival}
use devagent.Daemon.Invoke.{named, queue_depth}
use devagent.Daemon.Hal.Mock.{MockHal, hal_of}
use devagent.Daemon.Invoke.Tools.{handle_tool, answer_of, tool_result}
use devagent.Sidecar.Server.Diagnose.{answered, link_state}
use devagent.Sidecar.Server.Diagnose.Readiness.{body_of, link_state-handle_readyz}
use devagent.Sidecar.Forward.{token_ttl, auth_header}

abbrev pub led_on : InvokeMessage
led_on = record {
  device_id = "shelf_01";
  capability = "set_led";
  request_id = "req_1";
  params = some (("pin", whole (pos 13)) ∷ ("state", whole (pos 1)) ∷ []);
}

abbrev pub platform : Platform
platform = record {
  codec = codec;
  mac = mac;
  text_field = λ key v. none;
  token_lib = toy;
  shell = λ command limit. record { stdout = []; stderr = []; error = none };
  parse = λ body. some led_on;
}

abbrev pub hal : Hal platform
hal = record {
  transport = transport_urpc;
  is_connected = true;
  send_urpc = λ request. ok (record { seq = request.seq; status = 0; queue_depth = 2 });
  send_dcp = λ seq intent_id params. err device_timeout;
}

abbrev sent : UrpcRequest
sent = record { seq = 1; cmd = 161; payload = codes "13 1" }

abbrev led_params : Params
led_params = ("pin", whole (pos 13)) ∷ ("state", whole (pos 1)) ∷ []

led_sent :
    (invoke_core platform (some hal) 0 "shelf_01" set_led led_params).effects ≡ sent_urpc sent ∷ []
unfolding invoke_core next_seq invoke_hal invoke_urpc to_byte lookup format_urpc_payload
    fill_template utf8 utf8_char replace_each replace_placeholder replacement replace_all decimal
led_sent = refl

invoke_core-IsAllowed_example :
    (length (invoke_core platform (some hal) 0 "shelf_01" set_led led_params).effects ≤ 1)
    × All
        (IsAllowed platform set_led 0)
        (invoke_core platform (some hal) 0 "shelf_01" set_led led_params).effects
invoke_core-IsAllowed_example =
    invoke_core-IsAllowed platform (some hal) 0 "shelf_01" set_led led_params

abbrev key : List ℕ
key = 7 ∷ 9 ∷ []

abbrev server : Server platform
server = record {
  registry = registry;
  rate_limiter = new_rate_limiter 30 1_000_000_000;
  seq_counter = 0;
  token_secret = some key;
  hal = some hal;
}

abbrev bearer : List ℕ
unfolding mint
bearer = codes "Bearer " ++ mint toy key (codes "shelf_01.set_led" ∷ []) (pos 300) (pos 1000)

abbrev request : Request
request = record {
  method = post;
  remote_addr = "10.0.0.7:4444";
  authorization = bearer;
  body = some [];
}

program : Unit {0}
unfolding handle_http_invoke allow_call handle_body parse_body check_token trim_bearer verify
    split_dot verify_parts bytes_equal text_eq has_cap check_cap has_prefix dispatch find_capability
    get_device lookup insert keep remove ◌+ℤ◌ mint maybe_sweep sweep_due sweep take_token
    invoke_core next_seq invoke_hal invoke_urpc to_byte format_urpc_payload fill_template utf8
    utf8_char replace_each replace_placeholder replacement replace_all decimal Registry.register
    Registry.heartbeat remove_stale Registry.put set_state_path Registry.is_stale
    handle_http_devices authorized list_devices
program = tt

request_goes_out :
    (handle_http_invoke platform server request 5 (pos 1200)).effects ≡ sent_urpc sent ∷ []
unfolding program new_rate_limiter
request_goes_out = refl

request_acts : (handle_http_invoke platform server request 5 (pos 1200)).effects ≢ []
request_acts nothing_done =
    let done : sent_urpc sent ∷ [] ≡ [] = sym request_goes_out ∙ nothing_done in cc

handle_http_invoke-Admitted_example :
    (msg : InvokeMessage) × Admitted platform server request 5 (pos 1200) msg
    × Called platform server msg (handle_http_invoke platform server request 5 (pos 1200))
handle_http_invoke-Admitted_example =
    handle_http_invoke-Admitted platform server request 5 (pos 1200) request_acts

-- After the expiry, nothing is sent.
request_expired : (handle_http_invoke platform server request 5 (pos 1301)).effects ≡ []
unfolding program new_rate_limiter
request_expired = refl

abbrev listing : Request
listing = record request { method = get }

listed : handle_http_devices platform server listing (pos 1200) ≡ ok (sanitized shelf ∷ [])
unfolding program new_rate_limiter
listed = refl

abbrev arrivals : List Arrival
arrivals = (request, 5, pos 1200) ∷ (listing, 6, pos 1200) ∷ (request, 7, pos 1201) ∷ []

abbrev sidecar_header : List ℕ
unfolding mint
sidecar_header = codes "Bearer " ++ mint toy key (codes "*" ∷ []) (pos 300) (pos 1000)

header_set : auth_header toy (some key) (pos 0) (pos 1000) ≡ some sidecar_header
unfolding auth_header token_ttl mint
header_set = refl

link_state-handle_readyz_example :
    (link_state (answered (body_of platform (handle_readyz platform server))) ≡ "ok") ↔ (
      ((handle_readyz platform server).ready ≡ true) × ((h : Hal platform) × (server.hal ≡ some h)))
link_state-handle_readyz_example = link_state-handle_readyz platform server

abbrev led_device : RegisteredDevice
led_device = record { config = shelf; last_seen = 200; static = true }

-- A HAL that nothing was set on answers every call.
abbrev mock : MockHal platform
mock = record {
  open_fn = none;
  send_ur_fn = none;
  send_d_fn = none;
  close_fn = none;
  t_type = none;
}

mock_answers :
    handle_tool platform
      (record server { hal = some (hal_of platform mock) })
      "shelf_01"
      set_led
      led_on.params
    ≡ record {
      server = record server { hal = some (hal_of platform mock); seq_counter = 1 };
      answer = tool_result (record {
        status = named "OK";
        protocol = "urpc";
        result = queue_depth 0 none;
        intent_id = 0;
      });
      effects = sent_urpc sent ∷ [];
    }
unfolding handle_tool answer_of hal_of invoke_core next_seq invoke_hal invoke_urpc to_byte lookup
    format_urpc_payload fill_template utf8 utf8_char replace_each replace_placeholder replacement
    replace_all decimal
mock_answers = refl
