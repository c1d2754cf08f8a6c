-- ===== src/Daemon/Hal.antt =====
-- internal/daemon/hal.go, the interface that a call goes through, and what is not this program's: a
-- `Platform` holds CBOR, SHA-256, the text fields of a decoded map, the libraries of the tokens, the
-- shell and the reading of a message. A `Hal` is one implementation of the interface, as it answers one
-- call.
pub mod Mock
use devagent.Base.{ℤ, ℕ, String, Bool, Option, List, Result}
use devagent.Protocol.Urpc.{UrpcRequest, UrpcAck}
use devagent.Protocol.Dcp.{Codec, Mac, DcpFrame}
use devagent.Auth.{TokenLib}
use devagent.Daemon.Payload.{Params}
use devagent.Daemon.Native.{RunOutcome}

-- `internal/protocol/message.go`, as far as a request carries it. `params` is `none` if the message's
-- parameters are not an object.
pub record InvokeMessage : Type 0 where
  pub device_id : String
  pub capability : String
  pub request_id : String
  pub params : Option Params

pub record Platform : Type 1 where
  pub codec : Codec
  pub mac : Mac
  pub text_field : String → codec.Value → Option String
  pub token_lib : TokenLib
  pub shell : List ℕ → ℤ → RunOutcome
  pub parse : List ℕ → Option InvokeMessage

-- `ErrDeviceTimeout` wrapped in an error, or another error.
pub data HalError : Type 0 where
  device_timeout : HalError
  other_error : List ℕ → HalError

pub data TransportType : Type 0 where
  transport_urpc transport_dcp : TransportType

module _ (platform : Platform) where
  open platform use {codec}

  pub record Hal : Type 0 where
    pub transport : TransportType
    pub is_connected : Bool
    pub send_urpc : UrpcRequest → Result HalError UrpcAck
    pub send_dcp : ℕ → ℕ → Params → Result HalError (DcpFrame codec)
