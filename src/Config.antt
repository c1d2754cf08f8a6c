-- ===== src/Config.antt =====
-- internal/config/config.go. YAML, the file system and the environment are parameters; a duration is a
-- number of nanoseconds.
pub mod Loading
use devagent.Base.{
  ℕ, ◌*◌, ℤ, pos, negsuc, String, Bool, true, false, not, ◌&&◌, ◌||◌, Option, none, some, List, [],
  ◌∷◌, ltb, leb_ℤ, str_eq, if◌then◌else◌, Result, ok, err, contains, codes,
}
use Prim.Native.String.{len}

pub record StaticGateway : Type 0 where
  pub id : String
  pub url : String

pub record SidecarSettings : Type 0 where
  pub mdns_interval : ℤ
  pub dedup_ttl : ℤ
  pub health_check_interval : ℤ
  pub maintenance_timeout : ℤ
  pub heartbeat_timeout : ℤ
  pub static_gateways : List StaticGateway

pub record DaemonConfig : Type 0 where
  pub heartbeat_interval : ℤ
  pub heartbeat_timeout : ℤ
  pub state_path : String

pub record TokenConfig : Type 0 where
  pub secret : String
  pub default_ttl : ℤ

pub record TlsConfig : Type 0 where
  pub cert_path : String
  pub key_path : String

pub record GlobalConfig : Type 0 where
  pub sidecar : SidecarSettings
  pub daemon : DaemonConfig
  pub log_level : String
  pub token : TokenConfig
  pub tls : TlsConfig

abbrev pub seconds : ℕ → ℤ
seconds n = pos (n * 1_000_000_000)

abbrev pub default_global_config : GlobalConfig
default_global_config = record {
  sidecar = record {
    mdns_interval = seconds 10;
    dedup_ttl = seconds 3;
    health_check_interval = seconds 30;
    maintenance_timeout = seconds 60;
    heartbeat_timeout = seconds 90;
    static_gateways = [];
  };
  daemon = record {
    heartbeat_interval = seconds 30;
    heartbeat_timeout = seconds 60;
    state_path = "";
  };
  log_level = "info";
  token = record { secret = ""; default_ttl = seconds 3600 };
  tls = record { cert_path = ""; key_path = "" };
}

-- The variables that are read, as `os.Getenv` returns them: empty where they are not set.
pub record Environment : Type 0 where
  pub token_secret : String
  pub log_level : String
  pub tls_cert : String
  pub tls_key : String
  pub state_path : String

-- `if v := os.Getenv(…); v != "" { field = v }`
unfoldable pub override : String → String → String
override v field = if str_eq v "" then field else v

unfoldable pub apply_env_overrides : Environment → GlobalConfig → GlobalConfig
unfolding override
apply_env_overrides env cfg = record cfg {
  token = record cfg.token { secret = override env.token_secret cfg.token.secret };
  log_level = override env.log_level cfg.log_level;
  tls = record {
    cert_path = override env.tls_cert cfg.tls.cert_path;
    key_path = override env.tls_key cfg.tls.key_path;
  };
  daemon = record cfg.daemon { state_path = override env.state_path cfg.daemon.state_path };
}

pub data ConfigError : Type 0 where
  secret_too_short dedup_ttl_not_positive heartbeat_timeout_too_short read_config parse_config :
      ConfigError
  invalid_log_level : String → ConfigError

abbrev pub log_levels : List String
log_levels = "debug" ∷ "info" ∷ "warn" ∷ "error" ∷ []

-- `none` where there is no error.
unfoldable pub validate : GlobalConfig → Option ConfigError
unfolding contains
validate c =
    if not (str_eq c.token.secret "") && ltb (len c.token.secret) 16
    then some secret_too_short
    else if leb_ℤ c.sidecar.dedup_ttl (pos 0)
    then some dedup_ttl_not_positive
    else if leb_ℤ c.daemon.heartbeat_timeout c.daemon.heartbeat_interval
    then some heartbeat_timeout_too_short
    else if contains log_levels c.log_level
    then none
    else some (invalid_log_level c.log_level)

module _ {Data : Type 0} (read_file : String → Option Data)
    (parse : Data → GlobalConfig → Option GlobalConfig) where
  -- From the end of the parsing on.
  unfoldable pub finish : Environment → GlobalConfig → Result ConfigError GlobalConfig
  unfolding apply_env_overrides
  finish env parsed =
      let cfg = apply_env_overrides env parsed in
      elim (validate cfg) [ none ↦ ok cfg | some e ↦ err e ]

  -- `parse data cfg` is `yaml.Unmarshal(data, cfg)`: what it makes of `cfg`, if there is no error.
  unfoldable pub load : String → Environment → Result ConfigError GlobalConfig
  unfolding finish
  load path env = if str_eq path "" then ok default_global_config else elim (read_file path) [
    | none ↦ err read_config
    | some bytes ↦ elim (parse bytes default_global_config) [
      | none ↦ err parse_config
      | some parsed ↦ finish env parsed
    ]
  ]
