-- ===== src/Daemon/Registry/Held.antt =====
-- What holds of the registry after any operations.
use devagent.Base.{
  ℕ, String, ◌≡◌, refl, Bool, true, Option, none, some, List, [], ◌∷◌, inl, inr, arith, str_eq,
  eq_iff, not, All, Assoc, lookup, insert, remove, keep, Bool-cases, Option-cases, IsMap,
  insert-IsMap, keep-IsMap,
}
use devagent.Model.Capability.{DeviceConfig}
use devagent.Daemon.Registry.{
  RegisteredDevice, DeviceRegistry, new_device_registry, set_state_path, put, register, heartbeat,
  is_stale, remove_stale, StateCodec, put_all, restore,
}

-- Each device stands under its own identifier and is marked as static.
abbrev pub IsServed : Assoc RegisteredDevice → Type 0
IsServed = All (λ e. (e.1.config.device.id ≡ e.0) × (e.1.static ≡ true))

pub record Held (devices : Assoc RegisteredDevice) : Type 0 where
  pub unique : IsMap devices
  pub served : IsServed devices

insert-IsServed :
    (id : String) (d : RegisteredDevice) (devices : Assoc RegisteredDevice)
    → d.config.device.id ≡ id
    → d.static ≡ true
    → IsServed devices
    → IsServed (insert id d devices)
unfolding insert
insert-IsServed id d [] own static h = ((own, static), tt)
insert-IsServed id d ((j, old) ∷ devices) own static h =
    ground (arith, eq_iff j id, insert-IsServed id d devices own static h.1)

pub lookup-IsServed :
    (id : String) (d : RegisteredDevice) (devices : Assoc RegisteredDevice)
    → IsServed devices
    → lookup id devices ≡ some d
    → (d.config.device.id ≡ id) × (d.static ≡ true)
unfolding lookup
lookup-IsServed id d [] h e = cc
lookup-IsServed id d ((j, old) ∷ devices) h e =
    ground (arith, eq_iff j id, lookup-IsServed id d devices h.1)

remove-IsServed :
    (id : String) (devices : Assoc RegisteredDevice)
    → IsServed devices
    → IsServed (remove id devices)
unfolding remove
remove-IsServed id [] h = tt
remove-IsServed id ((j, d) ∷ devices) h = ground (arith, remove-IsServed id devices h.1)

keep-IsServed :
    (p : RegisteredDevice → Bool) (devices : Assoc RegisteredDevice)
    → IsServed devices
    → IsServed (keep p devices)
unfolding keep
keep-IsServed p [] h = tt
keep-IsServed p ((j, d) ∷ devices) h =
    let rest = remove-IsServed j (keep p devices) (keep-IsServed p devices h.1) in
    ground (arith, rest)

put-Held :
    (cfg : DeviceConfig) (now : ℕ) (devices : Assoc RegisteredDevice)
    → Held devices
    → Held (put cfg now devices)
unfolding put
put-Held cfg now devices h =
    let d : RegisteredDevice = record { config = cfg; last_seen = now; static = true } in
    record {
      unique = insert-IsMap cfg.device.id d devices h.unique;
      served = insert-IsServed cfg.device.id d devices refl refl h.served;
    }

put_all-Held :
    (cfgs : List DeviceConfig) (now : ℕ) (devices : Assoc RegisteredDevice)
    → Held devices
    → Held (put_all cfgs now devices)
unfolding put_all
put_all-Held [] now devices h = h
put_all-Held (cfg ∷ cfgs) now devices h =
    put_all-Held cfgs now (put cfg now devices) (put-Held cfg now devices h)

heartbeat-Held :
    (id : String) (now : ℕ) (reg : DeviceRegistry)
    → Held reg.devices
    → Held (heartbeat id now reg).devices
unfolding heartbeat
heartbeat-Held id now reg h = elim (Option-cases (lookup id reg.devices)) [
  | inl missing ↦ rw (heartbeat, missing) h
  | inr (d, found) ↦
      let (own, static) = lookup-IsServed id d reg.devices h.served found in
      let seen : RegisteredDevice = record d { last_seen = now } in
      rw (heartbeat, found)
        (record {
          unique = insert-IsMap id seen reg.devices h.unique;
          served = insert-IsServed id seen reg.devices own static h.served;
        })
]

-- The operations on the registry, with the clock's readings and, for a restart, the file's contents.
pub data Operation (codec : StateCodec) : Type 0 where
  register_op : DeviceConfig → ℕ → Operation codec
  heartbeat_op : String → ℕ → Operation codec
  remove_stale_op : ℕ → ℕ → Operation codec
  restore_op : Option codec.Bytes → ℕ → Operation codec

abbrev pub or_else : DeviceRegistry → Option DeviceRegistry → DeviceRegistry
or_else reg none = reg
or_else reg (some reg') = reg'

abbrev pub run : (codec : StateCodec) → DeviceRegistry → Operation codec → DeviceRegistry
run codec reg (register_op cfg now) = register cfg now reg
run codec reg (heartbeat_op id now) = heartbeat id now reg
run codec reg (remove_stale_op timeout now) = (remove_stale timeout now reg).0
run codec reg (restore_op file now) = or_else reg (restore codec file now reg)

abbrev pub run_all : (codec : StateCodec) → DeviceRegistry → List (Operation codec) → DeviceRegistry
run_all codec reg [] = reg
run_all codec reg (op ∷ ops) = run_all codec (run codec reg op) ops

module _ (codec : StateCodec) where
  open codec use {Bytes, marshal, unmarshal, unmarshal-marshal}

  restore-Held :
      (file : Option Bytes) (now : ℕ) (reg : DeviceRegistry)
      → Held reg.devices
      → Held (or_else reg (restore codec file now reg)).devices
  unfolding restore
  restore-Held none now reg h = elim (Bool-cases (str_eq reg.state_path "")) [
    | inl set ↦ rw (restore, set) h
    | inr set ↦ rw (restore, set) h
  ]
  restore-Held (some bytes) now reg h = elim (Bool-cases (str_eq reg.state_path "")) [
    | inl set ↦ rw (restore, set) h
    | inr set ↦ elim (Option-cases (unmarshal bytes)) [
      | inl broken ↦ rw (restore, set, broken) h
      | inr (cfgs, parsed) ↦ rw (restore, set, parsed) (put_all-Held cfgs now reg.devices h)
    ]
  ]

  run-Held :
      (reg : DeviceRegistry) (op : Operation codec)
      → Held reg.devices
      → Held (run codec reg op).devices
  unfolding register remove_stale
  run-Held reg (register_op cfg now) h = put-Held cfg now reg.devices h
  run-Held reg (heartbeat_op id now) h = heartbeat-Held id now reg h
  run-Held reg (remove_stale_op timeout now) h =
      let fresh : RegisteredDevice → Bool = λ d. not (is_stale timeout now d) in
      record {
        unique = keep-IsMap fresh reg.devices h.unique;
        served = keep-IsServed fresh reg.devices h.served;
      }
  run-Held reg (restore_op file now) h = restore-Held file now reg h

  run_all-Held :
      (reg : DeviceRegistry) (ops : List (Operation codec))
      → Held reg.devices
      → Held (run_all codec reg ops).devices
  run_all-Held reg [] h = h
  run_all-Held reg (op ∷ ops) h = run_all-Held (run codec reg op) ops (run-Held reg op h)

  pub reachable-Held :
      (path : String) (ops : List (Operation codec))
      → Held (run_all codec (set_state_path path new_device_registry) ops).devices
  unfolding set_state_path
  reachable-Held path ops =
      run_all-Held (set_state_path path new_device_registry) ops
        (record { unique = tt; served = tt })
