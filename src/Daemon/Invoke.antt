-- ===== src/Daemon/Invoke.antt =====
-- internal/daemon/server.go, `invokeCore`, over the interface of internal/daemon/hal.go: one call of a
-- device's capability.
pub mod Core
pub mod Http
pub mod Tools
use devagent.Base.{
  ℕ, ◌+◌, ◌-◌, ◌*◌, ◌%◌, ℤ, pos, negsuc, String, Bool, true, false, not, ◌||◌, Option, none, some,
  List, [], ◌∷◌, ◌++◌, leb, ◌==◌, str_eq, if◌then◌else◌, Result, ok, err, codes, lookup, map,
  replicate,
}
use devagent.Model.Capability.{Capability, CmdMap}
use devagent.Protocol.Urpc.{
  UrpcRequest, UrpcAck, status_ok, status_busy, status_invalid_cmd, status_error,
}
use devagent.Protocol.Dcp.{Codec, Mac, DcpFrame, dcp_error, intent_id_of}
use devagent.Auth.{TokenLib}
use devagent.Daemon.Payload.{Params, format_urpc_payload}
pub use devagent.Daemon.Hal.{
  InvokeMessage, Platform, HalError, device_timeout, other_error, TransportType, transport_urpc,
  transport_dcp, Hal,
}
use devagent.Daemon.Native.{RunOutcome, NativeResult, execute_native}

pub data CoreError : Type 0 where
  native_not_found : String → CoreError
  dcp_send : HalError → CoreError
  urpc_send : HalError → CoreError

abbrev pub busy_queue_depth_threshold : ℕ
busy_queue_depth_threshold = 8

-- `byte(n)` of an `int`.
unfoldable pub to_byte : ℤ → ℕ
to_byte (pos n) = n % 256
to_byte (negsuc n) = 255 - n % 256

-- The text of a status; an unknown one is given with its number, which the code prints in
-- hexadecimal.
pub data Status : Type 0 where
  named : String → Status
  unknown : ℕ → Status

unfoldable pub status_string : ℕ → Status
status_string status =
    if status == status_ok
    then named "OK"
    else if status == status_busy
    then named "BUSY"
    else if status == status_invalid_cmd
    then named "INVALID_CMD"
    else if status == status_error
    then named "ERROR"
    else unknown status

-- `seqCounter.Add(1)` on an `atomic.Uint32`.
unfoldable pub next_seq : ℕ → ℕ
next_seq counter = (counter + 1) % 4294967296

module _ (platform : Platform) where
  open platform use {codec, mac, text_field, shell}

  pub data ResultValue : Type 0 where
    no_value : ResultValue
    native_value : NativeResult → ResultValue
    dcp_failure : String → ℕ → ResultValue
    dcp_payload : codec.Value → ResultValue
    queue_depth : ℕ → Option ℕ → ResultValue

  pub record InvokeResult : Type 0 where
    pub status : Status
    pub protocol : String
    pub result : ResultValue
    pub intent_id : ℕ

  -- What a call does outside the process.
  pub data Effect : Type 0 where
    ran : List ℕ → Effect
    sent_urpc : UrpcRequest → Effect
    sent_dcp : ℕ → ℕ → Params → Effect

  pub record Outcome : Type 0 where
    pub result : Result CoreError InvokeResult
    pub seq_counter : ℕ
    pub effects : List Effect

  abbrev pub bare : Status → InvokeResult
  bare status = record { status = status; protocol = ""; result = no_value; intent_id = 0 }

  abbrev pub or_default : String → Option String → String
  or_default default none = default
  or_default default (some s) = s

  unfoldable pub dcp_result : ℕ → DcpFrame codec → InvokeResult
  dcp_result intent_id reply =
      if reply.kind == dcp_error
      then record {
        status = named "dcp_error";
        protocol = "dcp";
        result =
            dcp_failure (or_default "unknown dcp error" (text_field "error" reply.payload))
              intent_id;
        intent_id = intent_id;
      }
      else record {
        status = named (or_default "ok" (text_field "status" reply.payload));
        protocol = "dcp";
        result = dcp_payload reply.payload;
        intent_id = intent_id;
      }

  unfoldable pub is_busy : UrpcAck → Bool
  is_busy ack = ack.status == status_busy || leb busy_queue_depth_threshold ack.queue_depth

  unfoldable pub urpc_result : UrpcAck → InvokeResult
  unfolding is_busy status_string
  urpc_result ack =
      if is_busy ack
      then record {
        status = named "device_busy";
        protocol = "urpc";
        result = queue_depth ack.queue_depth (some 2000);
        intent_id = 0;
      }
      else record {
        status = status_string ack.status;
        protocol = "urpc";
        result = queue_depth ack.queue_depth none;
        intent_id = 0;
      }

  unfoldable pub chosen_intent : String → Capability → ℕ
  chosen_intent device_id cap =
      if cap.intent_id == 0
      then intent_id_of mac (codes device_id ++ b'.' ∷ codes cap.name)
      else cap.intent_id

  unfoldable pub invoke_native : ℕ → Capability → Params → Outcome
  invoke_native counter cap params =
      elim (execute_native shell cap.implementation.native cap params) [
        | none ↦ record {
          result = err (native_not_found cap.implementation.native);
          seq_counter = counter;
          effects = [];
        }
        | some (result, commands) ↦ record {
          result = ok (record {
            status = named result.status;
            protocol = "";
            result = native_value result;
            intent_id = 0;
          });
          seq_counter = counter;
          effects = map ran commands;
        }
      ]

  unfoldable pub invoke_dcp : Hal platform → ℕ → String → Capability → Params → Outcome
  unfolding chosen_intent dcp_result next_seq
  invoke_dcp hal counter device_id cap params =
      let intent_id = chosen_intent device_id cap in
      let seq = next_seq counter % 256 in
      record {
        result = elim (hal.send_dcp seq intent_id params) [
          | err e ↦ err (dcp_send e)
          | ok reply ↦ ok (dcp_result intent_id reply)
        ];
        seq_counter = next_seq counter;
        effects = sent_dcp seq intent_id params ∷ [];
      }

  unfoldable pub invoke_urpc : Hal platform → ℕ → Capability → Params → Outcome
  unfolding urpc_result next_seq to_byte lookup
  invoke_urpc hal counter cap params = elim (lookup cap.name cap.implementation.cmd_map) [
    | none ↦ record {
      result = ok (bare (named "cmd_map_not_found"));
      seq_counter = counter;
      effects = [];
    }
    | some entry ↦
        let request : UrpcRequest = record {
          seq = next_seq counter % 256;
          cmd = to_byte entry.cmd;
          payload = format_urpc_payload entry.fmt params;
        } in
        record {
          result = elim (hal.send_urpc request) [
            | err e ↦ err (urpc_send e)
            | ok ack ↦ ok (urpc_result ack)
          ];
          seq_counter = next_seq counter;
          effects = sent_urpc request ∷ [];
        }
  ]

  unfoldable pub invoke_hal : Hal platform → ℕ → String → Capability → Params → Outcome
  unfolding invoke_dcp invoke_urpc
  invoke_hal hal counter device_id cap params =
      if hal.is_connected
      then elim hal.transport [
        | transport_dcp ↦ invoke_dcp hal counter device_id cap params
        | transport_urpc ↦ invoke_urpc hal counter cap params
      ]
      else record {
        result = ok (bare (named "hal_not_available"));
        seq_counter = counter;
        effects = [];
      }

  unfoldable pub invoke_core : Option (Hal platform) → ℕ → String → Capability → Params → Outcome
  unfolding invoke_native invoke_hal
  invoke_core hal counter device_id cap params =
      if str_eq cap.implementation.native ""
      then elim hal [
        | none ↦ record {
          result = ok (bare (named "hal_not_available"));
          seq_counter = counter;
          effects = [];
        }
        | some h ↦ invoke_hal h counter device_id cap params
      ]
      else invoke_native counter cap params
