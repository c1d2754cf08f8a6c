-- ===== src/Daemon/Startup.antt =====
-- internal/daemon/server.go: how a daemon is made and started, up to the point where it serves. The
-- files, YAML, JSON and the opening of the serial device are parameters; what starts goroutines and
-- logs is left out. `now` is the clock's reading when a device is registered.
pub mod Restored
pub mod Captured
pub mod Advertised
use Prim.Native.String.{◌++◌ as str_append}
use devagent.Base.{
  ℕ, zero, suc, ℤ, pos, negsuc, pos_part, leb_ℤ, ◌==◌, ◌||◌, ◌&&◌, not, String, Bool, true, false,
  Option, none, some, List, [], ◌∷◌, ◌++◌, str_eq, if◌then◌else◌, codes, Result, ok, err,
}
use devagent.Model.Capability.{Capability, Implementation, DeviceConfig}
use devagent.Config.{GlobalConfig, TlsConfig}
use devagent.Mcptool.{compile_tool}
use devagent.Mcptool.Library.{McpLib}
use devagent.Daemon.RateLimiter.{RateLimiter, new_rate_limiter}
use devagent.Daemon.Registry
use devagent.Daemon.Registry.{
  DeviceRegistry, StateCodec, new_device_registry, set_state_path, restore,
}
use devagent.Daemon.Serial.{set_retry}
use devagent.Daemon.SerialPort.{SerialPort, new_serial_port, OpenResult, open_port}

-- `makeInvokeHandler`, with what it has captured.
pub record InvokeHandler : Type 0 where
  pub device_id : String
  pub capability : Capability

-- The two kinds of bridges.
pub data Bridge : Type 0 where
  dcp_bridge : Option (List ℕ) → ℕ → SerialPort → Bridge
  serial_bridge : ℕ → SerialPort → Bridge

abbrev pub max_dcp_retries : ℕ
max_dcp_retries = 3

-- `SetRetry` of a DCP bridge
unfoldable pub set_dcp_retry : ℤ → ℕ
set_dcp_retry n = if leb_ℤ n (pos 0) then max_dcp_retries else pos_part n

unfoldable pub make_bridge : Implementation → Bridge
unfolding set_retry set_dcp_retry
make_bridge impl =
    if str_eq impl.protocol "DCP" || str_eq impl.protocol "dcp"
    then dcp_bridge (if str_eq impl.hmac_secret "" then none else some (codes impl.hmac_secret))
        (set_dcp_retry impl.retry) new_serial_port
    else serial_bridge (set_retry impl.retry) new_serial_port

unfoldable pub effective_baudrate : ℤ → ℤ
effective_baudrate (pos zero) = pos 115200
effective_baudrate (pos (suc n)) = pos (suc n)
effective_baudrate (negsuc n) = negsuc n

-- `ds.hal.Open`, whose error is logged; `answer` is what the operating system says.
unfoldable pub open_bridge : String → ℤ → OpenResult → Bridge → Bridge
open_bridge channel baudrate answer (dcp_bridge secret retry port) =
    dcp_bridge secret retry (open_port channel baudrate answer port).0
open_bridge channel baudrate answer (serial_bridge retry port) =
    serial_bridge retry (open_port channel baudrate answer port).0

-- The part of `loadConfig` on the HAL, for a device of the type `mcu_proxy`.
unfoldable pub init_hal : OpenResult → Option Bridge → List Capability → Option Bridge
unfolding make_bridge effective_baudrate open_bridge
init_hal answer hal [] = hal
init_hal answer hal (first ∷ rest) =
    let impl = first.implementation in
    if str_eq impl.channel ""
    then some (make_bridge impl)
    else some
        (open_bridge impl.channel (effective_baudrate impl.baudrate) answer (make_bridge impl))

pub data StartError : Type 0 where
  read_failed parse_failed : StartError

module _ (lib : McpLib InvokeHandler) where
  pub record Daemon : Type 0 where
    pub registry : DeviceRegistry
    pub rate_limiter : RateLimiter
    pub token_secret : Option (List ℕ)
    pub hal : Option Bridge
    pub mcp_server : lib.Server
    pub cfg : GlobalConfig

  -- A second is 10⁹ nanoseconds.
  unfoldable pub new_daemon_server : GlobalConfig → Daemon
  unfolding new_rate_limiter
  new_daemon_server cfg = record {
    registry = new_device_registry;
    rate_limiter = new_rate_limiter 30 1_000_000_000;
    token_secret = if str_eq cfg.token.secret "" then none else some (codes cfg.token.secret);
    hal = none;
    mcp_server = lib.new_mcp_server;
    cfg = cfg;
  }

  unfoldable pub register_device_tools : String → List Capability → lib.Server → lib.Server
  register_device_tools device_id [] mcp = mcp
  register_device_tools device_id (capability ∷ rest) mcp = register_device_tools device_id rest (
      lib.add_tool (compile_tool device_id capability false)
        (record { device_id = device_id; capability = capability }) mcp)

  -- What `loadConfig` does with a configuration.
  unfoldable pub use_config : DeviceConfig → OpenResult → ℕ → Daemon → Daemon
  unfolding register_device_tools init_hal
  use_config cfg answer now ds = record ds {
    registry = Registry.register cfg now ds.registry;
    mcp_server = register_device_tools cfg.device.id cfg.capabilities ds.mcp_server;
    hal =
        if str_eq cfg.device.type_name "mcu_proxy"
        then init_hal answer ds.hal cfg.capabilities
        else ds.hal;
  }

  -- The registry after the state file has been read; a failure is logged, and it stays as it was.
  unfoldable pub restore_state : (codec : StateCodec) → Option codec.Bytes → ℕ → Daemon → Daemon
  restore_state codec file now ds =
      if str_eq ds.cfg.daemon.state_path ""
      then ds
      else let reg = set_state_path ds.cfg.daemon.state_path ds.registry in
        elim (restore codec file now reg) [
          | none ↦ record ds { registry = reg }
          | some reg' ↦ record ds { registry = reg' }
        ]

  module _ {Bytes : Type 0} (read_file : String → Option Bytes)
      (unmarshal : Bytes → Option DeviceConfig) where
    unfoldable pub load_config : String → OpenResult → ℕ → Daemon → Result StartError Daemon
    unfolding use_config
    load_config path answer now ds = elim (read_file path) [
      | none ↦ err read_failed
      | some bytes ↦ elim (unmarshal bytes) [
        | none ↦ err parse_failed
        | some cfg ↦ ok (use_config cfg answer now ds)
      ]
    ]

    -- `Start`, up to where it serves: `file` is the state file and `later` the clock at its reading.
    unfoldable pub start :
        (codec : StateCodec)
        → Option codec.Bytes
        → String
        → OpenResult
        → ℕ
        → ℕ
        → Daemon
        → Result StartError Daemon
    unfolding load_config restore_state
    start codec file path answer now later ds =
        if str_eq path ""
        then ok (restore_state codec file later ds)
        else elim (load_config path answer now ds) [
          | err e ↦ err e
          | ok loaded ↦ ok (restore_state codec file later loaded)
        ]

-- The records that `startMDNS` sends with the service.
unfoldable pub txt_records : String → String → TlsConfig → List String
txt_records gateway_id version tls =
    let txt =
      str_append "gateway=" gateway_id
      ∷ str_append "version=" version
      ∷ "protocols=urpc,dcp"
      ∷ [] in
    if str_eq tls.cert_path "" then txt else txt ++ "tls=1" ∷ []

-- Which of the two `ListenAndServe` is called.
unfoldable pub serves_tls : TlsConfig → Bool
serves_tls tls = not (str_eq tls.cert_path "") && not (str_eq tls.key_path "")
