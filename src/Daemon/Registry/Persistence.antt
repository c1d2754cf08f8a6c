-- ===== src/Daemon/Registry/Persistence.antt =====
-- What the registry keeps, over the clean-up and over a restart.
use devagent.Base.{
  ℕ, String, ◌≡◌, refl, ◌∙◌, sym, true, false, Option, none, some, List, [], ◌∷◌, inl, inr, arith,
  str_eq, eq_iff, if◌then◌else◌, not, Assoc, lookup, keep, lookup-insert, lookup-keep, Bool-cases,
  Option-cases,
}
use devagent.Model.Capability.{DeviceConfig}
use devagent.Daemon.Registry.{
  RegisteredDevice, DeviceRegistry, new_device_registry, set_state_path, put, get_device, is_stale,
  stale_ids, remove_stale, StateCodec, configs, put_all, snapshot, restore,
}
use devagent.Daemon.Registry.Held.{
  IsServed, Held, lookup-IsServed, Operation, run_all, reachable-Held,
}

-- What a restart makes of a device that was found.
abbrev pub restored : ℕ → Option RegisteredDevice → Option RegisteredDevice
restored now none = none
restored now (some d) = some (record { config = d.config; last_seen = now; static = true })

lookup-put :
    (cfg : DeviceConfig) (now : ℕ) (id : String) (base : Assoc RegisteredDevice)
    → lookup id (put cfg now base) ≡ (
        if str_eq cfg.device.id id
        then some (record { config = cfg; last_seen = now; static = true })
        else lookup id base)
unfolding put
lookup-put cfg now id base =
    lookup-insert cfg.device.id id (record { config = cfg; last_seen = now; static = true }) base

lookup-put_all :
    (now : ℕ) (id : String) (devices base : Assoc RegisteredDevice)
    → Held devices
    → lookup id (put_all (configs devices) now base)
      ≡ elim (lookup id devices) [ none ↦ lookup id base | some d ↦ restored now (some d) ]
unfolding put_all configs lookup
lookup-put_all now id [] base h = refl
lookup-put_all now id ((j, d) ∷ devices) base h =
    let own : d.config.device.id ≡ j = h.served.0.0 in
    let rest =
      lookup-put_all now id devices (put d.config now base)
        (record { unique = h.unique.1; served = h.served.1 }) in
    let first = lookup-put d.config now id base in
    elim (Bool-cases (str_eq j id)) [
      | inl same ↦
          let alone : lookup id devices ≡ none = ground (arith, eq_iff j id, h.unique.0) in
          ground (arith, rest, first, own, alone)
      | inr differ ↦ ground (arith, rest, first, own)
    ]

lookup-restored :
    (now : ℕ) (id : String) (devices : Assoc RegisteredDevice)
    → Held devices
    → lookup id (put_all (configs devices) now []) ≡ restored now (lookup id devices)
unfolding lookup
lookup-restored now id devices h =
    let both = lookup-put_all now id devices [] h in
    elim (Option-cases (lookup id devices)) [
      | inl missing ↦ ground (arith, both, missing)
      | inr (d, found) ↦ ground (arith, both, found)
    ]

stale_ids-static :
    (timeout now : ℕ) (devices : Assoc RegisteredDevice)
    → IsServed devices
    → stale_ids timeout now devices ≡ []
unfolding stale_ids is_stale
stale_ids-static timeout now [] h = refl
stale_ids-static timeout now ((id, d) ∷ devices) h =
    ground (arith, stale_ids-static timeout now devices h.1)

lookup-keep_static :
    (timeout now : ℕ) (id : String) (devices : Assoc RegisteredDevice)
    → IsServed devices
    → lookup id (keep (λ d. not (is_stale timeout now d)) devices) ≡ lookup id devices
unfolding is_stale
lookup-keep_static timeout now id devices h =
    lookup-keep (λ d. not (is_stale timeout now d)) id devices
    ∙ elim (Option-cases (lookup id devices)) [
      | inl missing ↦ rw (missing) refl
      | inr (d, found) ↦
          let static : d.static ≡ true = (lookup-IsServed id d devices h found).1 in
          rw (found, static) refl
    ]

module _ (codec : StateCodec) (path : String) (ops : List (Operation codec)) where
  open codec use {Bytes, marshal, unmarshal, unmarshal-marshal}

  -- The registry after any operations from the daemon's start on.
  abbrev pub reached : DeviceRegistry
  reached = run_all codec (set_state_path path new_device_registry) ops

  -- After any registrations, heartbeats, clean-ups and restarts, and whatever the timeout and the
  -- clock: `RemoveStale` returns no device and changes the answer of no `GetDevice`, since every
  -- device that gets into the registry is static.
  pub remove_stale-reachable :
      (timeout now : ℕ)
      → ((remove_stale timeout now reached).1 ≡ [])
        × ((id : String)
            → get_device id (remove_stale timeout now reached).0 ≡ get_device id reached)
  unfolding remove_stale get_device
  remove_stale-reachable timeout now =
      let held = reachable-Held codec path ops in
      (
        stale_ids-static timeout now reached.devices held.served,
        λ id. lookup-keep_static timeout now id reached.devices held.served,
      )

  restore_bytes :
      (reg : DeviceRegistry) (bytes : Bytes) (later : ℕ)
      → Held reg.devices
      → snapshot codec reg ≡ some bytes
      → (reg' : DeviceRegistry) × (restore codec
            (some bytes)
            later
            (set_state_path reg.state_path new_device_registry)
          ≡ some reg')
        × ((id : String) → get_device id reg' ≡ restored later (get_device id reg))
  unfolding snapshot restore get_device set_state_path
  restore_bytes reg bytes later held written =
      let set : str_eq reg.state_path "" ≡ false = ground arith in
      let same : marshal (configs reg.devices) ≡ bytes = ground arith in
      let parsed : unmarshal bytes ≡ some (configs reg.devices) =
        rw (sym same) (unmarshal-marshal (configs reg.devices)) in
      (
        record { devices = put_all (configs reg.devices) later []; state_path = reg.state_path },
        rw (restore, set, parsed) refl,
        λ id. lookup-restored later id reg.devices held,
      )

  -- What `Snapshot` wrote after any operations, `Restore` reads into an empty registry: the restarted
  -- daemon knows the same devices with the same configurations, seen at the restart and static.
  pub restore-snapshot :
      (bytes : Bytes) (later : ℕ)
      → snapshot codec reached ≡ some bytes
      → (reg' : DeviceRegistry) × (restore codec
            (some bytes)
            later
            (set_state_path reached.state_path new_device_registry)
          ≡ some reg')
        × ((id : String) → get_device id reg' ≡ restored later (get_device id reached))
  restore-snapshot bytes later written =
      restore_bytes reached bytes later (reachable-Held codec path ops) written
