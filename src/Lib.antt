-- ===== src/Lib.antt =====
-- devagent: a gateway daemon that serves the devices of a machine over MCP and HTTP, and a sidecar that
-- an AI client talks to and that routes its calls to the daemons. This library models the Go code of
-- both, and proves what makes its parts correct.
--
-- How the parts interact. A daemon (internal/daemon) reads the configuration of its devices into a
-- registry and answers `/invoke` and `/devices`: the rate limiter, the token (internal/auth) and the
-- registry decide whether a capability is called, and `invokeCore` runs a shell command or sends one
-- frame (internal/protocol) to the device, whose firmware is internal/lite. The sidecar
-- (internal/sidecar) keeps the gateways and the routes of their devices in a route table
-- (internal/model), asks new gateways for their devices, checks the known ones on a ticker, forwards
-- calls with a token that it mints, and keeps jobs and a window of recent calls.
--
-- Which file models what:
--   Base               shared: Boolean tests, lists, integers, maps, results and texts
--   Model.Capability   internal/model/capability.go: configurations, `Sanitized` as `sanitized`
--   Mcptool            internal/mcptool/tool.go: `CompileTool` as `compile_tool`; Mcptool.Library is the
--                      MCP library as the servers use it
--   Command            cmd/devagent/cli.go: `runCLI` as `run_cli`, `cmdInit`, `cmdValidate`, `cmdSchema`;
--                      Command.PidFile and Command.Main are cmd/devagent/main.go
--   Model.RouteTable   internal/model/device.go: `RouteTable`; `Register` is `register`, `AddDevice`
--                      `add_device`, `Unregister` `unregister`, `Lookup` `lookup_device`, and so on
--   Model.Locking      the mutex of a `RouteTable`, and the goroutines at it, as a step relation
--   Protocol.Urpc      internal/protocol/urpc.go, and of internal/lite/main/urpc_agent.c the reading of
--                      a request in `process_frame` as `read_request`
--   Firmware           internal/lite/main/urpc_agent.c: `process_frame` and `urpc_rx_task`, with the static
--                      variables as a record; Firmware.Retries and Firmware.Relays put the daemon before it
--   Protocol.Dcp       internal/protocol/dcp.go
--   Auth               internal/auth/token.go: `Mint`, `Verify` and `CheckCap`
--   Config             internal/config/config.go: `Load` and `Validate`
--   Daemon.RateLimiter internal/daemon/rate_limiter.go
--   Daemon.Payload     internal/daemon/server.go: `formatURPCPayload`
--   Daemon.Native      internal/daemon/native.go: `ShellHandler.Execute` as `execute_shell`
--   Daemon.Registry    internal/daemon/device_registry.go
--   Daemon.Hal         internal/daemon/hal.go: the interface, and what is not this program's
--   Daemon.Invoke      internal/daemon/server.go: `invokeCore`
--   Daemon.Invoke.Http internal/daemon/server.go: the HTTP handlers
--   Daemon.Invoke.Tools internal/daemon/server.go: `makeInvokeHandler` as `handle_tool`
--   Daemon.Startup     internal/daemon/server.go: `NewDaemonServer`, `loadConfig`, and `Start` up to where
--                      it serves; Daemon.Shutdown is how `Start` ends, as a step relation.
--                      Daemon.Startup.Captured: which configuration the tools have kept
--   Daemon.Serial      internal/daemon/urpc_bridge.go: `SendURPC` and `readURPCAck`
--   Daemon.DcpBridge   internal/daemon/dcp_bridge.go: `SendDCP` and `readDCPReply`
--   Daemon.SerialPort  internal/daemon/serial_port.go, and the reconnection ticks of server.go
--   Sidecar.Dedup      internal/sidecar/dedup.go
--   Sidecar.Progress   internal/sidecar/progress.go
--   Sidecar.Router     internal/sidecar/router.go: one tick of the health check, which goes on only if
--                      `onStatusChange` returns (Model.Locking shows that main's does not)
--   Sidecar.Forward    internal/sidecar/router.go: the token header, discovery and forwarding;
--                      Sidecar.Forward.Delivery puts daemons at the other end of the network
--   Sidecar.Browse     internal/sidecar/router.go: what `Discover` takes an mDNS entry for
--   Sidecar.Server     internal/sidecar/server.go: the handler of a device tool, and of the job status;
--                      Sidecar.Server.Tools the tools of its MCP server, Sidecar.Server.Diagnose
--                      `handleDiagnose`
--   Tests              runs at concrete inputs, and an instance of each theorem below
--
-- State and time. The state of a part is a record, and an operation takes and returns it; a mutex makes
-- each operation one step, so a run of the program is a list of operations, and an invariant is proved
-- over all lists. A Go map is an association list (Base.Maps); where Go leaves the order of a map open,
-- the list's order stands for any. An instant is an argument: a natural number of the unit that the
-- file names, or a signed Unix second for tokens. Numbers of a fixed width keep their wrap-around
-- (`% 256`, `% 2 ^ 32`); indices and lengths are natural numbers.
--
-- Bounds. A loop is structural on the list that it walks, and the loop over the attempts of a bridge on
-- their number. Fuel is taken by one definition, `digits_of`, which writes a number n in decimal: it is
-- given n + 1, and Base.Decimal reads the number back. A port is the list of what its next reads come back with; a
-- loop that has used up the list is `waiting`, so that a loop that never ends is one that is `waiting`
-- after every number of reads.
--
-- What is not this program's is a parameter with the laws that the code relies on: CBOR (`Codec`),
-- HMAC-SHA256 (`Mac`), JSON and base64 (`TokenLib`, `StateCodec`), the MCP library (`McpLib`), the
-- shell, the operating system, the network. The tests have a concrete one of each.
--
-- Not modelled: mDNS browsing, HTTP servers, tickers, flags, signals and logging, which are input and
-- output; `/healthz`, which answers a constant, and the JSON of internal/protocol/message.go; the start-up
-- of the firmware, which calls ESP-IDF; cmd/integration_test, a test program that drives a running
-- system; internal/version.
pub mod Base
pub mod Model
pub mod Protocol
pub mod Auth
pub mod Daemon
pub mod Sidecar
pub mod Command
pub mod Config
pub mod Firmware
pub mod Mcptool
pub mod Tests
