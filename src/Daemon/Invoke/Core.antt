-- ===== src/Daemon/Invoke/Core.antt =====
-- What one call of `invokeCore` does outside the daemon.
use devagent.Base.{
  ℕ, ◌%◌, ◌≤◌, ◌<◌, ◌≡◌, ◌≢◌, inl, inr, refl, ℤ, pos, negsuc, String, true, Option, none, some,
  List, [], ◌∷◌, arith, Bool-cases, Option-cases, All, length, map, lookup, str_eq, eq_iff,
}
use devagent.Model.Capability.{Capability}
use devagent.Daemon.Payload.{Params}
use devagent.Daemon.Native.{execute_native, execute_shell}
use devagent.Daemon.Native.Guard.{Passed, execute_shell-Passed}
use devagent.Daemon.Invoke.{
  Platform, TransportType, transport_urpc, transport_dcp, to_byte, next_seq, Hal, Effect, ran,
  sent_urpc, sent_dcp, Outcome, invoke_native, invoke_dcp, invoke_urpc, invoke_hal, invoke_core,
}

module _ (platform : Platform) where
  -- The effect is one that the capability allows at this value of the sequence counter: a command of a
  -- native capability that has passed the handler's checks, or a frame of a capability that is not
  -- native, with the counter's next value, modulo 256, as its number, and a command that is a byte.
  abbrev pub IsAllowed : Capability → ℕ → Effect platform → Type 0
  IsAllowed cap counter (ran command) =
      (cap.implementation.native ≢ "") × Passed cap.implementation.allowed_commands command
  IsAllowed cap counter (sent_urpc request) =
      (cap.implementation.native ≡ "")
      × (request.seq ≡ next_seq counter % 256)
      × (request.cmd < 256)
  IsAllowed cap counter (sent_dcp seq intent_id params) =
      (cap.implementation.native ≡ "") × (seq ≡ next_seq counter % 256)

  to_byte-lt : (n : ℤ) → to_byte n < 256
  unfolding to_byte
  to_byte-lt (pos n) = omega arith
  to_byte-lt (negsuc n) = omega arith

  record Allowed (cap : Capability) (counter : ℕ) (outcome : Outcome platform) : Type 0 where
    once : length outcome.effects ≤ 1
    each : All (IsAllowed cap counter) outcome.effects

  nothing :
      (cap : Capability) (counter : ℕ) (outcome : Outcome platform)
      → outcome.effects ≡ []
      → Allowed cap counter outcome
  nothing cap counter outcome none_done = record {
    once = rw (none_done) (omega arith);
    each = rw (none_done) tt;
  }

  invoke_urpc-Allowed :
      (hal : Hal platform) (counter : ℕ) (cap : Capability) (params : Params)
      → cap.implementation.native ≡ ""
      → Allowed cap counter (invoke_urpc platform hal counter cap params)
  unfolding invoke_urpc
  invoke_urpc-Allowed hal counter cap params foreign =
      elim (Option-cases (lookup cap.name cap.implementation.cmd_map)) [
        | inl missing ↦ rw (invoke_urpc, missing) (record { once = omega arith; each = tt })
        | inr (entry, found) ↦
            rw (invoke_urpc, found)
              (record { once = omega arith; each = ((foreign, refl, to_byte-lt entry.cmd), tt) })
      ]

  connected-Allowed :
      (transport : TransportType) (hal : Hal platform) (counter : ℕ) (device_id : String)
      (cap : Capability) (params : Params)
      → hal.transport ≡ transport
      → hal.is_connected ≡ true
      → cap.implementation.native ≡ ""
      → Allowed cap counter (invoke_hal platform hal counter device_id cap params)
  unfolding invoke_hal invoke_dcp
  connected-Allowed transport_urpc hal counter device_id cap params t connected foreign =
      rw (invoke_hal, connected, t) (invoke_urpc-Allowed hal counter cap params foreign)
  connected-Allowed transport_dcp hal counter device_id cap params t connected foreign =
      rw (invoke_hal, connected, t) (record { once = omega arith; each = ((foreign, refl), tt) })

  All-ran :
      (cap : Capability) (counter : ℕ) (commands : List (List ℕ))
      → cap.implementation.native ≢ ""
      → All (Passed cap.implementation.allowed_commands) commands
      → All (IsAllowed cap counter) (map ran commands)
  All-ran cap counter [] native h = tt
  All-ran cap counter (command ∷ commands) native (passed, h) =
      ((native, passed), All-ran cap counter commands native h)

  commands_ran : List (List ℕ) → List (Effect platform)
  commands_ran commands = map ran commands

  length-ran : (commands : List (List ℕ)) → length (commands_ran commands) ≡ length commands
  unfolding commands_ran
  length-ran [] = refl
  length-ran (command ∷ commands) = omega (arith, length-ran commands)

  invoke_native-Allowed :
      (counter : ℕ) (cap : Capability) (params : Params)
      → cap.implementation.native ≢ ""
      → Allowed cap counter (invoke_native platform counter cap params)
  unfolding invoke_native execute_native commands_ran
  invoke_native-Allowed counter cap params native =
      let (once, passed) = execute_shell-Passed platform.shell cap params in
      let commands = (execute_shell platform.shell cap params).1 in
      elim (Bool-cases (str_eq cap.implementation.native "shell")) [
        | inl shell ↦
            rw (invoke_native, execute_native, shell)
              (record {
                once = rw (length-ran commands) once;
                each = All-ran cap counter commands native passed;
              })
        | inr unknown ↦
            rw (invoke_native, execute_native, unknown) (record { once = omega arith; each = tt })
      ]

  invoke_hal-Allowed :
      (hal : Hal platform) (counter : ℕ) (device_id : String) (cap : Capability) (params : Params)
      → cap.implementation.native ≡ ""
      → Allowed cap counter (invoke_hal platform hal counter device_id cap params)
  unfolding invoke_hal
  invoke_hal-Allowed hal counter device_id cap params foreign = elim (Bool-cases hal.is_connected) [
    | inl connected ↦
        connected-Allowed hal.transport hal counter device_id cap params refl connected foreign
    | inr lost ↦ rw (invoke_hal, lost) (record { once = omega arith; each = tt })
  ]

  foreign-Allowed :
      (hal : Option (Hal platform)) (counter : ℕ) (device_id : String) (cap : Capability)
      (params : Params)
      → str_eq cap.implementation.native "" ≡ true
      → cap.implementation.native ≡ ""
      → Allowed cap counter (invoke_core platform hal counter device_id cap params)
  unfolding invoke_core
  foreign-Allowed none counter device_id cap params test foreign =
      rw (invoke_core, test) (record { once = omega arith; each = tt })
  foreign-Allowed (some hal) counter device_id cap params test foreign =
      rw (invoke_core, test) (invoke_hal-Allowed hal counter device_id cap params foreign)

  invoke_core-Allowed :
      (hal : Option (Hal platform)) (counter : ℕ) (device_id : String) (cap : Capability)
      (params : Params)
      → Allowed cap counter (invoke_core platform hal counter device_id cap params)
  unfolding invoke_core
  invoke_core-Allowed hal counter device_id cap params =
      elim (Bool-cases (str_eq cap.implementation.native "")) [
        | inl test ↦
            foreign-Allowed hal counter device_id cap params test
              (ground (arith, eq_iff cap.implementation.native ""))
        | inr test ↦
            rw (invoke_core, test)
              (invoke_native-Allowed counter cap params
                (ground (arith, eq_iff cap.implementation.native "")))
      ]

  -- Whatever the platform, the HAL, the capability and the parameters: a call has at most one effect.
  -- If the capability is native, it is a command that has passed the shell handler's checks; otherwise
  -- it is one frame, which carries the sequence counter's next value modulo 256, and as a uRPC frame a
  -- command that is a byte.
  pub invoke_core-IsAllowed :
      (hal : Option (Hal platform)) (counter : ℕ) (device_id : String) (cap : Capability)
      (params : Params)
      → (length (invoke_core platform hal counter device_id cap params).effects ≤ 1)
        × All
            (IsAllowed cap counter)
            (invoke_core platform hal counter device_id cap params).effects
  invoke_core-IsAllowed hal counter device_id cap params =
      let allowed = invoke_core-Allowed hal counter device_id cap params in
      (allowed.once, allowed.each)
