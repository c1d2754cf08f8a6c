-- ===== src/Daemon/Startup/Restored.antt =====
-- What a started daemon knows of its devices.
use devagent.Base.{
  ℕ, ◌≡◌, ◌≢◌, ◌⊎◌, inl, inr, refl, ap, ◌∙◌, String, true, false, Option, none, some, List, [], ◌∷◌,
  arith, str_eq, eq_iff, if◌then◌else◌, Assoc, lookup, insert, lookup-insert, Result, ok, err,
  Bool-cases, Option-cases,
}
use devagent.Model.Capability.{DeviceConfig}
use devagent.Config.{GlobalConfig}
use devagent.Mcptool.Library.{McpLib}
use devagent.Daemon.Registry
use devagent.Daemon.Registry.{
  RegisteredDevice, DeviceRegistry, StateCodec, new_device_registry, set_state_path, put, put_all,
  get_device, restore,
}
use devagent.Daemon.SerialPort.{OpenResult}
use devagent.Daemon.Startup.{
  InvokeHandler, StartError, read_failed, parse_failed, Daemon, new_daemon_server, use_config,
  load_config, restore_state, start,
}

abbrev known : DeviceConfig → ℕ → RegisteredDevice
known cfg now = record { config = cfg; last_seen = now; static = true }

-- The last of the saved configurations of a device.
abbrev pub saved_config : String → List DeviceConfig → Option DeviceConfig
saved_config id [] = none
saved_config id (cfg ∷ cfgs) = elim (saved_config id cfgs) [
  | some later ↦ some later
  | none ↦ if str_eq cfg.device.id id then some cfg else none
]

abbrev pub or_saved : ℕ → Option RegisteredDevice → Option DeviceConfig → Option RegisteredDevice
or_saved later before none = before
or_saved later before (some cfg) = some (known cfg later)

lookup-put_all_saved :
    (now : ℕ) (id : String) (cfgs : List DeviceConfig) (base : Assoc RegisteredDevice)
    → lookup id (put_all cfgs now base) ≡ or_saved now (lookup id base) (saved_config id cfgs)
unfolding put_all put
lookup-put_all_saved now id [] base = refl
lookup-put_all_saved now id (cfg ∷ cfgs) base =
    lookup-put_all_saved now id cfgs (put cfg now base)
    ∙ elim (Option-cases (saved_config id cfgs)) [
      | inr (last, found) ↦ rw found refl
      | inl nothing ↦ rw nothing (
          lookup-insert cfg.device.id id (known cfg now) base
          ∙ elim (Bool-cases (str_eq cfg.device.id id)) [
            | inl own ↦ rw own refl
            | inr other ↦ rw other refl
          ])
    ]

module _ (codec : StateCodec) where
  open codec use {unmarshal}

  -- What the state file holds, if it is asked for and can be read.
  abbrev pub saved_in : GlobalConfig → Option codec.Bytes → List DeviceConfig
  saved_in cfg file = if str_eq cfg.daemon.state_path "" then [] else elim file [
    | none ↦ []
    | some bytes ↦ elim (unmarshal bytes) [ none ↦ [] | some cfgs ↦ cfgs ]
  ]

  restore_state-get :
      (lib : McpLib InvokeHandler) (file : Option codec.Bytes) (later : ℕ) (ds : Daemon lib)
      (id : String)
      → get_device id (restore_state lib codec file later ds).registry
        ≡ or_saved later (get_device id ds.registry) (saved_config id (saved_in ds.cfg file))
  unfolding restore_state restore get_device set_state_path
  restore_state-get lib file later ds id = elim (Bool-cases (str_eq ds.cfg.daemon.state_path "")) [
    | inl unset ↦ rw (restore_state, unset) refl
    | inr set ↦ by_file file set
  ]
    where
      by_file :
          (file : Option codec.Bytes)
          → str_eq ds.cfg.daemon.state_path "" ≡ false
          → get_device id (restore_state lib codec file later ds).registry
            ≡ or_saved later (get_device id ds.registry) (saved_config id (saved_in ds.cfg file))
      by_file none set = rw (restore_state, set, restore, set_state_path) refl
      by_file (some bytes) set = elim (Option-cases (unmarshal bytes)) [
        | inl unread ↦ rw (restore_state, set, restore, set_state_path, unread) refl
        | inr (cfgs, read) ↦
            rw (restore_state, set, restore, set_state_path, read)
              (lookup-put_all_saved later id cfgs ds.registry.devices)
      ]

  module _ {Bytes : Type 0} (read_file : String → Option Bytes)
      (parse : Bytes → Option DeviceConfig) (lib : McpLib InvokeHandler) (gcfg : GlobalConfig)
      (file : Option codec.Bytes) (path : String) (answer : OpenResult) (now later : ℕ) where
    abbrev pub started : Result StartError (Daemon lib)
    started =
        start lib read_file parse codec file path answer now later (new_daemon_server lib gcfg)

    -- The device of the configuration file, if this is it.
    abbrev pub configured : String → Option DeviceConfig → Option RegisteredDevice
    configured id none = none
    configured id (some cfg) = if str_eq cfg.device.id id then some (known cfg now) else none

    -- The daemon has started, with this configuration.
    abbrev pub Serves : Option DeviceConfig → Type 0
    Serves config =
        (ds : Daemon lib) × (started ≡ ok ds)
        × ((id : String)
            → get_device id ds.registry
              ≡ or_saved later (configured id config) (saved_config id (saved_in gcfg file)))

    use_config-get :
        (cfg : DeviceConfig) (id : String)
        → get_device id (use_config lib cfg answer now (new_daemon_server lib gcfg)).registry
          ≡ configured id (some cfg)
    unfolding use_config new_daemon_server get_device lookup insert put Registry.register
    use_config-get cfg id = elim (Bool-cases (str_eq cfg.device.id id)) [
      | inl own ↦ rw own refl
      | inr other ↦ rw other refl
    ]

    restored-none :
        (id : String)
        → get_device id (restore_state lib codec file later (new_daemon_server lib gcfg)).registry
          ≡ or_saved later (configured id none) (saved_config id (saved_in gcfg file))
    unfolding new_daemon_server get_device lookup
    restored-none id = restore_state-get lib file later (new_daemon_server lib gcfg) id

    pub restored-some :
        (cfg : DeviceConfig) (id : String)
        → get_device id
            (restore_state lib codec file later
              (use_config lib cfg answer now (new_daemon_server lib gcfg))).registry
          ≡ or_saved later (configured id (some cfg)) (saved_config id (saved_in gcfg file))
    unfolding use_config new_daemon_server
    restored-some cfg id =
        restore_state-get lib file later
          (use_config lib cfg answer now (new_daemon_server lib gcfg)) id
        ∙ ap (λ d. or_saved later d (saved_config id (saved_in gcfg file))) (use_config-get cfg id)

    -- How a start ends. It fails only where a configuration file is named that cannot be read or is no
    -- configuration; the state file never makes it fail. Otherwise the daemon serves a device with the
    -- last configuration that the state file has for it, where a state file is set and can be read; else
    -- with the one of the configuration file, if that is about it; and no other device.
    pub start-Serves :
        ((path ≡ "") × Serves none)
        ⊎ ((path ≢ "") × (read_file path ≡ none) × (started ≡ err read_failed))
        ⊎ ((path ≢ "")
            × ((bytes : Bytes) × (read_file path ≡ some bytes)
                × (parse bytes ≡ none)
                × (started ≡ err parse_failed)))
        ⊎ ((path ≢ "")
            × ((bytes : Bytes) × ((cfg : DeviceConfig) × (read_file path ≡ some bytes)
                  × (parse bytes ≡ some cfg)
                  × Serves (some cfg))))
    unfolding start load_config
    start-Serves =
        let ds = new_daemon_server lib gcfg in
        elim (Bool-cases (str_eq path "")) [
          | inl unset ↦ inl (
            (eq_iff path "").0 unset,
            (restore_state lib codec file later ds, rw (start, unset) refl, restored-none),
          )
          | inr set ↦
              let named : path ≢ "" = ground (arith, eq_iff path "") in
              elim (Option-cases (read_file path)) [
                | inl unread ↦ inr (inl (named, unread, rw (start, set, load_config, unread) refl))
                | inr (bytes, read) ↦ elim (Option-cases (parse bytes)) [
                  | inl unparsed ↦ inr (
                      inr (
                        inl (
                          named,
                          (
                            bytes,
                            read,
                            unparsed,
                            rw (start, set, load_config, read, unparsed) refl,
                          ),
                        )))
                  | inr (cfg, parsed) ↦
                      let loaded = use_config lib cfg answer now ds in
                      let held : Serves (some cfg) = (
                        restore_state lib codec file later loaded,
                        rw (start, set, load_config, read, parsed) refl,
                        restored-some cfg,
                      ) in
                      inr (inr (inr (named, (bytes, (cfg, read, parsed, held)))))
                ]
              ]
        ]
