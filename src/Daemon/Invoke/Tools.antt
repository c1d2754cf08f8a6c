-- ===== src/Daemon/Invoke/Tools.antt =====
-- internal/daemon/server.go, `makeInvokeHandler`: the daemon's own MCP tools, which call a device without
-- the detour over a sidecar, a token or the rate limiter.
use devagent.Base.{
  ◌≡◌, refl, ap, String, Bool, true, false, Option, some, List, str_eq, eq_iff, arith,
  if◌then◌else◌, Result, ok, err, Bool-cases, inl, inr,
}
use devagent.Model.Capability.{Capability}
use devagent.Daemon.Payload.{Params}
use devagent.Daemon.Registry.{RegisteredDevice, get_device}
use devagent.Daemon.Invoke.{
  Platform, InvokeMessage, CoreError, Status, named, unknown, InvokeResult, Effect, invoke_core,
}
use devagent.Daemon.Invoke.Http.{
  Server, Response, json, reply_of, dispatch, find_capability, given_params,
}

unfoldable pub status_is : String → Status → Bool
status_is text (named s) = str_eq s text
status_is text (unknown n) = false

status_is-eq :
    (text : String) (status : Status) → status_is text status ≡ true → status ≡ named text
unfolding status_is
status_is-eq text (named s) h = ap named ((eq_iff s text).0 h)
status_is-eq text (unknown n) h = absurd (ground arith)

module _ (platform : Platform) where
  pub data ToolAnswer : Type 0 where
    tool_failed : CoreError → ToolAnswer
    hal_missing : ToolAnswer
    cmd_map_missing : String → ToolAnswer
    tool_result : InvokeResult platform → ToolAnswer

  pub record ToolCall : Type 0 where
    pub server : Server platform
    pub answer : ToolAnswer
    pub effects : List (Effect platform)

  unfoldable pub answer_of : String → Result CoreError (InvokeResult platform) → ToolAnswer
  unfolding status_is
  answer_of capability (err e) = tool_failed e
  answer_of capability (ok result) =
      if status_is "hal_not_available" result.status
      then hal_missing
      else if status_is "cmd_map_not_found" result.status
      then cmd_map_missing capability
      else tool_result result

  unfoldable pub handle_tool : Server platform → String → Capability → Option Params → ToolCall
  unfolding answer_of
  handle_tool server device_id capability arguments =
      let outcome =
        invoke_core platform server.hal server.seq_counter device_id capability
          (given_params arguments) in
      record {
        server = record server { seq_counter = outcome.seq_counter };
        answer = answer_of capability.name outcome.result;
        effects = outcome.effects;
      }

  -- The response over HTTP tells what the tool's answer tells.
  abbrev pub Agrees : InvokeMessage → ToolAnswer → Response platform → Type 0
  Agrees msg (tool_failed e) response = response ≡ json 200 (reply_of platform msg (err e))
  Agrees msg hal_missing response =
      (r : InvokeResult platform) × (r.status ≡ named "hal_not_available")
      × (response ≡ json 200 (reply_of platform msg (ok r)))
  Agrees msg (cmd_map_missing capability) response =
      (r : InvokeResult platform) × (r.status ≡ named "cmd_map_not_found")
      × (response ≡ json 200 (reply_of platform msg (ok r)))
  Agrees msg (tool_result r) response = response ≡ json 200 (reply_of platform msg (ok r))

  answer_of-Agrees :
      (msg : InvokeMessage) (capability : String)
      (result : Result CoreError (InvokeResult platform))
      → Agrees msg (answer_of capability result) (json 200 (reply_of platform msg result))
  unfolding answer_of
  answer_of-Agrees msg capability (err e) = refl
  answer_of-Agrees msg capability (ok r) =
      elim (Bool-cases (status_is "hal_not_available" r.status)) [
        | inl no_hal ↦
            rw (answer_of, no_hal) (r, status_is-eq "hal_not_available" r.status no_hal, refl)
        | inr other ↦ elim (Bool-cases (status_is "cmd_map_not_found" r.status)) [
          | inl no_entry ↦
              rw (answer_of, other, no_entry)
                (r, status_is-eq "cmd_map_not_found" r.status no_entry, refl)
          | inr fine ↦ rw (answer_of, other, fine) refl
        ]
      ]

  -- The two ways to a registered device's capability come to the same: a call of its tool and a message
  -- to `/invoke` that is let through have the same effects outside, leave the same server behind, and
  -- are answered with the same result, status or error.
  pub dispatch-Agrees :
      (server : Server platform) (msg : InvokeMessage) (dev : RegisteredDevice)
      (capability : Capability)
      → get_device msg.device_id server.registry ≡ some dev
      → find_capability msg.capability dev.config.capabilities ≡ some capability
      → let call = handle_tool server msg.device_id capability msg.params in
        let handled = dispatch platform server msg in
        (handled.server ≡ call.server)
        × (handled.effects ≡ call.effects)
        × Agrees msg call.answer handled.response
  unfolding dispatch handle_tool
  dispatch-Agrees server msg dev capability registered offered =
      let outcome =
        invoke_core platform server.hal server.seq_counter msg.device_id capability
          (given_params msg.params) in
      rw (dispatch, registered, offered)
        (refl, refl, answer_of-Agrees msg capability.name outcome.result)
