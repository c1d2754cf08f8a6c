-- ===== src/Tests/Daemon.antt =====
-- internal/daemon/device_registry.go's runs, and instances of its theorems; and the device of the tests.
use devagent.Base.{◌≡◌, refl, pos, some, String, List, [], ◌∷◌, lookup, insert, keep, remove}
use devagent.Model.Capability.{Capability, DeviceConfig}
use devagent.Daemon.Registry
use devagent.Daemon.Registry.{
  RegisteredDevice, DeviceRegistry, StateCodec, new_device_registry, set_state_path, get_device,
  remove_stale, snapshot, restore,
}
use devagent.Daemon.Registry.Held.{Operation, register_op, heartbeat_op, remove_stale_op}
use devagent.Daemon.Registry.Persistence.{
  restored, reached, remove_stale-reachable, restore-snapshot,
}

abbrev pub set_led : Capability
set_led = record {
  name = "set_led";
  description = "";
  intent_id = 0;
  input_schema = record { type_name = "object"; properties = []; required = [] };
  implementation = record {
    native = "";
    proxy = "mcu";
    channel = "/dev/ttyS0";
    baudrate = pos 0;
    protocol = "uRPC";
    hmac_secret = "secret";
    cmd_map = ("set_led", record { cmd = pos 161; fmt = "{pin} {state}" }) ∷ [];
    timeout_ms = pos 0;
    retry = pos 0;
    allowed_commands = [];
  };
}

abbrev pub shelf : DeviceConfig
shelf = record {
  device = record { id = "shelf_01"; name = "shelf"; type_name = "mcu_proxy"; capabilities = [] };
  capabilities = set_led ∷ [];
}

abbrev pub state_codec : StateCodec
state_codec = record {
  Bytes = List DeviceConfig;
  marshal = λ cfgs. cfgs;
  unmarshal = λ cfgs. some cfgs;
  unmarshal-marshal = λ cfgs. refl;
}

abbrev pub operations : List (Operation state_codec)
operations = register_op shelf 100 ∷ heartbeat_op "shelf_01" 200 ∷ remove_stale_op 10 900 ∷ []

abbrev pub registry : DeviceRegistry
registry = reached state_codec "/var/state.json" operations

remove_stale-reachable_example :
    ((remove_stale 10 5000 registry).1 ≡ [])
    × ((id : String) → get_device id (remove_stale 10 5000 registry).0 ≡ get_device id registry)
remove_stale-reachable_example =
    remove_stale-reachable state_codec "/var/state.json" operations 10 5000

written : snapshot state_codec registry ≡ some (shelf ∷ [])
unfolding snapshot Registry.configs Registry.register Registry.heartbeat remove_stale Registry.put
    set_state_path insert lookup keep remove Registry.is_stale
written = refl

restore-snapshot_example :
    (reg' : DeviceRegistry) × (restore state_codec
        (some (shelf ∷ []))
        700
        (set_state_path registry.state_path new_device_registry)
      ≡ some reg')
    × ((id : String) → get_device id reg' ≡ restored 700 (get_device id registry))
restore-snapshot_example =
    restore-snapshot state_codec "/var/state.json" operations (shelf ∷ []) 700 written
