-- ===== src/Daemon/Hal/Mock.antt =====
-- internal/daemon/hal.go, `MockHAL`: a HAL without a device, for the program's tests. Each function may be
-- set; else its default answers. A `nil` payload is the codec's.
use devagent.Base.{ℕ, ℤ, String, Bool, true, Option, none, some, [], Result, ok}
use devagent.Protocol.Urpc.{UrpcRequest, UrpcAck, status_ok}
use devagent.Protocol.Dcp.{DcpFrame, dcp_version, dcp_reply}
use devagent.Daemon.Payload.{Params}
use devagent.Daemon.Hal.{Platform, HalError, TransportType, transport_urpc, Hal}

module _ (platform : Platform) where
  open platform use {codec}

  -- `open_fn` and `close_fn` tell whether there was no error.
  pub record MockHal : Type 0 where
    pub open_fn : Option (String → ℤ → Bool)
    pub send_ur_fn : Option (UrpcRequest → Result HalError UrpcAck)
    pub send_d_fn : Option (ℕ → ℕ → Params → Result HalError (DcpFrame codec))
    pub close_fn : Option Bool
    pub t_type : Option TransportType

  unfoldable pub open_mock : String → ℤ → MockHal → Bool
  open_mock channel baudrate m = elim m.open_fn [ none ↦ true | some f ↦ f channel baudrate ]

  unfoldable pub send_urpc_mock : UrpcRequest → MockHal → Result HalError UrpcAck
  send_urpc_mock req m = elim m.send_ur_fn [
    | none ↦ ok (record { seq = req.seq; status = status_ok; queue_depth = 0 })
    | some f ↦ f req
  ]

  unfoldable pub send_dcp_mock : ℕ → ℕ → Params → MockHal → Result HalError (DcpFrame codec)
  send_dcp_mock seq intent_id params m = elim m.send_d_fn [
    | none ↦ ok (record {
      ver = dcp_version;
      kind = dcp_reply;
      seq = seq;
      intent_id = intent_id;
      payload = codec.nil_map;
      hmac = [];
    })
    | some f ↦ f seq intent_id params
  ]

  unfoldable pub close_mock : MockHal → Bool
  close_mock m = elim m.close_fn [ none ↦ true | some fine ↦ fine ]

  unfoldable pub transport_mock : MockHal → TransportType
  transport_mock m = elim m.t_type [ none ↦ transport_urpc | some t ↦ t ]

  -- The mock as a HAL: it is always connected.
  unfoldable pub hal_of : MockHal → Hal platform
  unfolding send_urpc_mock send_dcp_mock transport_mock
  hal_of m = record {
    transport = transport_mock m;
    is_connected = true;
    send_urpc = λ req. send_urpc_mock req m;
    send_dcp = λ seq intent_id params. send_dcp_mock seq intent_id params m;
  }
