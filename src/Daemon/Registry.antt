-- ===== src/Daemon/Registry.antt =====
-- internal/daemon/device_registry.go: the devices that the daemon serves. Each operation is one step
-- under the registry's mutex; `now` is the clock's reading in it, in milliseconds. The JSON library is
-- a parameter of `snapshot` and `restore`, and the state file is a value: its bytes, if it can be read.
pub mod Held
pub mod Persistence
use devagent.Base.{
  ℕ, ◌-◌, ◌≡◌, String, Bool, true, false, Option, none, some, List, [], ◌∷◌, ltb, not,
  if◌then◌else◌, str_eq, Assoc, lookup, insert, remove, keep, map,
}
use devagent.Model.Capability.{DeviceConfig}

pub record RegisteredDevice : Type 0 where
  pub config : DeviceConfig
  pub last_seen : ℕ
  pub static : Bool

pub record DeviceRegistry : Type 0 where
  pub devices : Assoc RegisteredDevice
  pub state_path : String

abbrev pub new_device_registry : DeviceRegistry
new_device_registry = record { devices = []; state_path = "" }

unfoldable pub set_state_path : String → DeviceRegistry → DeviceRegistry
set_state_path path reg = record reg { state_path = path }

-- The assignment of `Register` and of the loop of `Restore`.
unfoldable pub put : DeviceConfig → ℕ → Assoc RegisteredDevice → Assoc RegisteredDevice
unfolding insert
put cfg now devices =
    insert cfg.device.id (record { config = cfg; last_seen = now; static = true }) devices

unfoldable pub register : DeviceConfig → ℕ → DeviceRegistry → DeviceRegistry
unfolding put
register cfg now reg = record reg { devices = put cfg now reg.devices }

unfoldable pub get_device : String → DeviceRegistry → Option RegisteredDevice
unfolding lookup
get_device id reg = lookup id reg.devices

unfoldable pub heartbeat : String → ℕ → DeviceRegistry → DeviceRegistry
unfolding lookup insert
heartbeat id now reg = elim (lookup id reg.devices) [
  | none ↦ reg
  | some d ↦ record reg { devices = insert id (record d { last_seen = now }) reg.devices }
]

-- In the order of the list; Go leaves the order of a map open.
unfoldable pub list_devices : DeviceRegistry → List RegisteredDevice
list_devices reg = map (λ e. e.1) reg.devices

-- `!d.static && now.Sub(d.LastSeen) > timeout`, where the clock does not run back.
unfoldable pub is_stale : ℕ → ℕ → RegisteredDevice → Bool
is_stale timeout now d = if d.static then false else ltb timeout (now - d.last_seen)

unfoldable pub stale_ids : ℕ → ℕ → Assoc RegisteredDevice → List String
unfolding is_stale
stale_ids timeout now [] = []
stale_ids timeout now ((id, d) ∷ devices) =
    let rest = stale_ids timeout now devices in if is_stale timeout now d then id ∷ rest else rest

-- The registry and the identifiers that were removed.
unfoldable pub remove_stale : ℕ → ℕ → DeviceRegistry → DeviceRegistry × List String
unfolding is_stale keep stale_ids
remove_stale timeout now reg = (
  record reg { devices = keep (λ d. not (is_stale timeout now d)) reg.devices },
  stale_ids timeout now reg.devices,
)

-- `json.Marshal` and `json.Unmarshal` on a list of configurations. `marshal` fails on none, and
-- `unmarshal` reads what was written.
pub record StateCodec : Type 1 where
  pub Bytes : Type 0
  pub marshal : List DeviceConfig → Bytes
  pub unmarshal : Bytes → Option (List DeviceConfig)
  pub unmarshal-marshal : (cfgs : List DeviceConfig) → unmarshal (marshal cfgs) ≡ some cfgs

unfoldable pub configs : Assoc RegisteredDevice → List DeviceConfig
configs devices = map (λ e. e.1.config) devices

unfoldable pub put_all : List DeviceConfig → ℕ → Assoc RegisteredDevice → Assoc RegisteredDevice
unfolding put
put_all [] now devices = devices
put_all (cfg ∷ cfgs) now devices = put_all cfgs now (put cfg now devices)

-- What happened to the state file: nothing, since no path is set; or its contents.
unfoldable pub snapshot : (codec : StateCodec) → DeviceRegistry → Option codec.Bytes
unfolding configs
snapshot codec reg =
    if str_eq reg.state_path "" then none else some (codec.marshal (configs reg.devices))

-- `none` is the error of an unreadable or malformed file: the registry stays as it was.
unfoldable pub restore :
    (codec : StateCodec) → Option codec.Bytes → ℕ → DeviceRegistry → Option DeviceRegistry
unfolding put_all
restore codec file now reg = if str_eq reg.state_path "" then some reg else elim file [
  | none ↦ none
  | some data_bytes ↦ elim (codec.unmarshal data_bytes) [
    | none ↦ none
    | some cfgs ↦ some (record reg { devices = put_all cfgs now reg.devices })
  ]
]
