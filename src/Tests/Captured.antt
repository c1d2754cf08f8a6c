-- ===== src/Tests/Captured.antt =====
-- internal/daemon's tools after a start: an instance of the theorem.
use devagent.Base.{ℕ, Option, none, some, String, [], ◌∷◌}
use devagent.Config.{GlobalConfig, default_global_config}
use devagent.Model.Capability.{DeviceConfig}
use devagent.Tests.Daemon.{shelf, state_codec}
use devagent.Tests.Invoke.{platform, hal}
use devagent.Tests.Libraries.{mcp_lib}
use devagent.Daemon.RateLimiter.{new_rate_limiter}
use devagent.Daemon.SerialPort.{opened}
use devagent.Daemon.Invoke.Http.{Server}
use devagent.Daemon.Startup.{InvokeHandler, Daemon, new_daemon_server, use_config, restore_state}

abbrev gcfg : GlobalConfig
gcfg = record default_global_config {
  daemon = record default_global_config.daemon { state_path = "state.json" };
}

-- The state file has the shelf without its capability.
abbrev bare_shelf : DeviceConfig
bare_shelf = record shelf { capabilities = [] }

abbrev content_of : String → Option ℕ
content_of path = some 1

abbrev parsed : ℕ → Option DeviceConfig
parsed bytes = some shelf

abbrev ds : Daemon (mcp_lib InvokeHandler)
ds = restore_state (mcp_lib InvokeHandler) state_codec (some (bare_shelf ∷ [])) 101 (
    use_config (mcp_lib InvokeHandler) shelf opened 100
      (new_daemon_server (mcp_lib InvokeHandler) gcfg))

abbrev server : Server platform
server = record {
  registry = ds.registry;
  rate_limiter = new_rate_limiter 30 1_000_000_000;
  seq_counter = 0;
  token_secret = none;
  hal = some hal;
}
