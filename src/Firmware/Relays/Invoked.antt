-- ===== src/Firmware/Relays/Invoked.antt =====
-- `invokeCore` of internal/daemon/server.go and the firmware together, for the relay command of the
-- README.
use mathlib.Core.Path.{subst}
use devagent.Base.{
  ℕ, ◌%◌, ℤ, pos, String, true, ◌≡◌, inl, inr, refl, Option, none, some, List, [], ◌∷◌, In,
  Bool-cases, lookup, str_eq, ok,
}
use devagent.Model.Capability.{Capability}
use devagent.Protocol.Urpc.{UrpcRequest, encode_request}
use devagent.Daemon.Payload.{ParamValue, Params, format_urpc_payload}
use devagent.Daemon.Invoke.{
  Platform, TransportType, transport_urpc, transport_dcp, to_byte, next_seq, Hal, sent_urpc,
  invoke_dcp, invoke_urpc, invoke_hal, invoke_core,
}
use devagent.Firmware.{Agent}
use devagent.Firmware.Relays.{template, InOrder, Ignored, process_frame-Ignored}

-- What the configuration gives for the capability, as README.md writes it.
pub record IsDocumented (cap : Capability) : Type 0 where
  pub not_native : cap.implementation.native ≡ ""
  pub entry :
      lookup cap.name cap.implementation.cmd_map ≡ some (record { cmd = pos 161; fmt = template })

module _ (platform : Platform) where
  record IsMade (params : Params) (request : UrpcRequest) : Type 0 where
    cmd : request.cmd ≡ 0xA1
    payload : request.payload ≡ format_urpc_payload template params

  urpc_sends :
      (hal : Hal platform) (counter : ℕ) (cap : Capability) (params : Params)
      (request : UrpcRequest)
      → IsDocumented cap
      → In (sent_urpc request) (invoke_urpc platform hal counter cap params).effects
      → IsMade params request
  unfolding invoke_urpc to_byte
  urpc_sends hal counter cap params request documented sent =
      let made : UrpcRequest = record {
        seq = next_seq counter % 256;
        cmd = 0xA1;
        payload = format_urpc_payload template params;
      } in
      let effects : (invoke_urpc platform hal counter cap params).effects ≡ sent_urpc made ∷ [] =
        rw (invoke_urpc, documented.entry) refl in
      elim (subst (λ es. In (sent_urpc request) es) effects sent) [
        | inl same ↦
            let request_made : made ≡ request = cc in
            record { cmd = rw (← request_made) refl; payload = rw (← request_made) refl }
        | inr none_left ↦ absurd none_left
      ]

  connected_sends :
      (transport : TransportType) (hal : Hal platform) (counter : ℕ) (device_id : String)
      (cap : Capability) (params : Params) (request : UrpcRequest)
      → hal.transport ≡ transport
      → hal.is_connected ≡ true
      → IsDocumented cap
      → In (sent_urpc request) (invoke_hal platform hal counter device_id cap params).effects
      → IsMade params request
  unfolding invoke_hal invoke_dcp
  connected_sends transport_urpc hal counter device_id cap params request t connected documented
        sent =
      let same : invoke_hal platform hal counter device_id cap params
          ≡ invoke_urpc platform hal counter cap params =
        rw (invoke_hal, connected, t) refl in
      urpc_sends hal counter cap params request documented
        (subst (λ outcome. In (sent_urpc request) outcome.effects) same sent)
  connected_sends transport_dcp hal counter device_id cap params request t connected documented
        sent =
      let same : invoke_hal platform hal counter device_id cap params
          ≡ invoke_dcp platform hal counter device_id cap params =
        rw (invoke_hal, connected, t) refl in
      elim (subst (λ outcome. In (sent_urpc request) outcome.effects) same sent) [
        | inl same_effect ↦ absurd cc
        | inr none_left ↦ absurd none_left
      ]

  hal_sends :
      (hal : Hal platform) (counter : ℕ) (device_id : String) (cap : Capability) (params : Params)
      (request : UrpcRequest)
      → IsDocumented cap
      → In (sent_urpc request) (invoke_hal platform hal counter device_id cap params).effects
      → IsMade params request
  unfolding invoke_hal
  hal_sends hal counter device_id cap params request documented sent =
      elim (Bool-cases hal.is_connected) [
        | inl connected ↦
            connected_sends hal.transport hal counter device_id cap params request refl connected
              documented sent
        | inr lost ↦
            let nothing : (invoke_hal platform hal counter device_id cap params).effects ≡ [] =
              rw (invoke_hal, lost) refl in
            absurd (subst (λ es. In (sent_urpc request) es) nothing sent)
      ]

  core_sends :
      (hal : Option (Hal platform)) (counter : ℕ) (device_id : String) (cap : Capability)
      (params : Params) (request : UrpcRequest)
      → IsDocumented cap
      → In (sent_urpc request) (invoke_core platform hal counter device_id cap params).effects
      → IsMade params request
  unfolding invoke_core
  core_sends none counter device_id cap params request documented sent =
      let foreign : str_eq cap.implementation.native "" ≡ true = rw (documented.not_native) refl in
      let nothing : (invoke_core platform none counter device_id cap params).effects ≡ [] =
        rw (invoke_core, foreign) refl in
      absurd (subst (λ es. In (sent_urpc request) es) nothing sent)
  core_sends (some hal) counter device_id cap params request documented sent =
      let foreign : str_eq cap.implementation.native "" ≡ true = rw (documented.not_native) refl in
      let same : invoke_core platform (some hal) counter device_id cap params
          ≡ invoke_hal platform hal counter device_id cap params =
        rw (invoke_core, foreign) refl in
      hal_sends hal counter device_id cap params request documented
        (subst (λ outcome. In (sent_urpc request) outcome.effects) same sent)

  -- With the entry of the command map that README.md and configs/example_device.yaml give for the
  -- relays of this firmware, no call with a whole pin sets a relay. A request that `invokeCore` sends
  -- for any whole pin and any state, in either order of the two parameters, sets no level at the
  -- firmware, whatever the firmware has answered before, and is answered with "invalid command" unless
  -- it is taken for a repetition: the payload is the pin in decimal digits, and the firmware takes the
  -- first of them for the number of a pin above 3.
  pub invoke_core-Ignored :
      (hal : Option (Hal platform)) (counter : ℕ) (device_id : String) (cap : Capability)
      → IsDocumented cap
      → (pin : ℤ) (state : ParamValue) (params : Params) → InOrder pin state params
      → (request : UrpcRequest)
      → In (sent_urpc request) (invoke_core platform hal counter device_id cap params).effects
      → (queue_depth : ℕ) (frame : List ℕ) (agent : Agent) → encode_request request ≡ ok frame
      → Ignored request queue_depth frame agent
  invoke_core-Ignored hal counter device_id cap documented pin state params order request sent
        queue_depth frame agent encoded =
      let made = core_sends hal counter device_id cap params request documented sent in
      process_frame-Ignored pin state params order request queue_depth frame agent made.cmd
        made.payload encoded
