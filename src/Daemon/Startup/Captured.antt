-- ===== src/Daemon/Startup/Captured.antt =====
-- internal/daemon/server.go: the capability that a tool of the daemon has captured when it was registered,
-- and the one that a message to `/invoke` finds in the registry.
use devagent.Base.{◌≡◌, String, false, Option, none, some, []}
use devagent.Model.Capability.{Capability, DeviceConfig}
use devagent.Mcptool.{Tool, compile_tool}
use devagent.Daemon.Invoke.{Platform, InvokeMessage}
use devagent.Daemon.Invoke.Http.{Server, dispatch, find_capability}
use devagent.Daemon.Invoke.Tools.{handle_tool, Agrees}
use devagent.Daemon.Startup.{InvokeHandler, Daemon}

-- The tool and the handler of a device's capability.
abbrev pub captured_or :
    String → Option (Tool × InvokeHandler) → Option Capability → Option (Tool × InvokeHandler)
captured_or device_id other none = other
captured_or device_id other (some capability) = some (
  compile_tool device_id capability false,
  record { device_id = device_id; capability = capability },
)

module _ (platform : Platform) where
  -- The message to `/invoke` does what a tool with this capability does: the same effects, the same
  -- server afterwards, and an answer that tells the same.
  pub record ActsAs (server : Server platform) (msg : InvokeMessage) (capability : Capability)
      : Type 0 where
    pub same_server :
        (dispatch platform server msg).server
        ≡ (handle_tool platform server msg.device_id capability msg.params).server
    pub same_effects :
        (dispatch platform server msg).effects
        ≡ (handle_tool platform server msg.device_id capability msg.params).effects
    pub agrees :
        Agrees platform msg
          (handle_tool platform server msg.device_id capability msg.params).answer
          (dispatch platform server msg).response

  -- Which capability a message to `/invoke` acts with, by what the state file has of the device.
  pub data Used (server : Server platform) (msg : InvokeMessage) (captured : Capability)
      (saved : Option DeviceConfig) : Type 0 where
    nothing_saved : saved ≡ none → ActsAs server msg captured → Used server msg captured saved
    saved_capability :
        (cfg : DeviceConfig) (current : Capability)
        → saved ≡ some cfg
        → find_capability msg.capability cfg.capabilities ≡ some current
        → ActsAs server msg current
        → Used server msg captured saved
    saved_without :
        (cfg : DeviceConfig)
        → saved ≡ some cfg
        → find_capability msg.capability cfg.capabilities ≡ none
        → (dispatch platform server msg).effects ≡ []
        → Used server msg captured saved
