-- ===== src/Tests/Forward.antt =====
-- internal/sidecar's forwarding against a daemon of internal/daemon: an instance of the theorem.
use devagent.Base.{
  ℕ, ◌≡◌, refl, pos, ◌+ℤ◌, String, true, none, some, List, [], ◌∷◌, arith, codes, ok, err, lookup,
  insert, keep,
}
use devagent.Tests.Daemon.{registry}
use devagent.Tests.Invoke.{led_on}
use devagent.Tests.Invoke
use devagent.Daemon.RateLimiter.{new_rate_limiter}
use devagent.Daemon.Invoke.{Platform, Hal, transport_urpc, device_timeout}
use devagent.Daemon.Invoke.Http.{Server, Reply}
use devagent.Model.RouteTable.{RouteTable, GatewayMeta, new_route_table}
use devagent.Model.RouteTable.Routes.{register_op, run_all}
use devagent.Sidecar.Dedup.{new_dedup_window}
use devagent.Sidecar.Progress.{Job, get_job, register_job}
use devagent.Sidecar.Server.{SidecarServer, settle, handle_get_job_status}
use devagent.Sidecar.Server.Dispatch.{settled, pending}
use devagent.Sidecar.Forward.{
  ForwardMessage, ForwardError, route_not_found, token_ttl, auth_header, forward_invoke,
}
use devagent.Sidecar.Forward.Delivery.{Network, in_time, send}
use devagent.Sidecar.Forward.Outcomes.{Ends, reported, forward_invoke-Ends}

abbrev platform : Platform
platform = record Invoke.platform {
  parse = λ body. elim body [ [] ↦ none | c ∷ rest ↦ some led_on ];
}

abbrev hal : Hal platform
hal = record {
  transport = transport_urpc;
  is_connected = true;
  send_urpc = λ request. ok (record { seq = request.seq; status = 0; queue_depth = 2 });
  send_dcp = λ seq intent_id params. err device_timeout;
}

abbrev key : List ℕ
key = 7 ∷ 9 ∷ []

abbrev server : Server platform
server = record {
  registry = registry;
  rate_limiter = new_rate_limiter 30 1_000_000_000;
  seq_counter = 0;
  token_secret = some key;
  hal = some hal;
}

abbrev network : Network platform
network = record {
  servers = λ url. some server;
  return_of = λ url. in_time;
  remote_addr = "10.0.0.7:4444";
  instant = 5;
  now = pos 1001;
}

abbrev message : ForwardMessage
message = record {
  request_id = "req_1";
  device_id = "shelf_01";
  capability = "set_led";
  params = led_on.params;
  job_id = "job_1";
}

abbrev marshal : ForwardMessage → List ℕ
marshal message = b'{' ∷ codes message.device_id

abbrev gateway : GatewayMeta
gateway = record {
  id = "gw_1";
  url = "http://gw1:8080";
  devices = "shelf_01" ∷ [];
  last_heartbeat = 0;
  status = "";
}

abbrev rt : RouteTable
rt = run_all (register_op gateway 100 ∷ []) new_route_table

abbrev sidecar : SidecarServer (Reply platform)
sidecar = record {
  route_table = rt;
  dedup = new_dedup_window 3_000_000_000;
  progress = register_job (Reply platform) "job_1" "req_1" "shelf_01" 5 [];
  configs = [];
}

abbrev job : Job (Reply platform)
job = pending (Reply platform) "job_1" "req_1" "shelf_01" 5

job_found : handle_get_job_status (Reply platform) "job_1" sidecar ≡ some job
unfolding handle_get_job_status get_job register_job lookup insert keep
job_found = refl

shared :
    (url : String) (other : Server platform)
    → network.servers url ≡ some other
    → other.token_secret ≡ some key
shared url other e = let same : server ≡ other = cc in rw (← same) refl

abbrev text : ForwardError → String
text (route_not_found device_id) = "ROUTE_NOT_FOUND"
text _ = "invoke daemon"

forward_invoke-Ends_example :
    let result =
      forward_invoke platform.token_lib
        (some key)
        (pos 0)
        (send platform marshal network)
        message
        (pos 1000)
        rt in
    Ends platform marshal network message
      (auth_header platform.token_lib (some key) (pos 0) (pos 1000))
      rt
      result
    × (handle_get_job_status
          (Reply platform)
          "job_1"
          (settle (Reply platform) "job_1" (reported text result) sidecar)
        ≡ some (settled (Reply platform) (reported text result) job))
unfolding token_ttl ◌+ℤ◌
forward_invoke-Ends_example =
    forward_invoke-Ends platform marshal network (some key) (pos 0) (pos 1000) message rt text
      sidecar job refl shared (omega arith) job_found
