-- ===== src/Daemon/DcpBridge.antt =====
-- internal/daemon/dcp_bridge.go: `SendDCP` and `readDCPReply` over a serial port, as in Daemon.Serial.
-- `io.ReadFull` is the loop of `read_loop`: it goes on while a read brings neither an error nor enough.
pub mod Replies
use devagent.Base.{
  ℕ, zero, suc, ◌+◌, String, Bool, true, false, not, ◌||◌, Option, none, some, List, [], ◌∷◌, ◌++◌,
  ◌==◌, get_or, length, if◌then◌else◌, Result, ok, err,
}
use devagent.Protocol.Dcp.{
  Codec, Mac, DcpFrame, EncodeError, dcp_header_size, dcp_hmac_size, encode_dcp_call,
  decode_dcp_frame, verify_dcp_hmac, append_dcp_hmac,
}
use devagent.Daemon.Serial.{
  Port, ReadError, decode_dcp_error, Outcome, done, error, panicked, waiting, read_loop,
}

module _ (codec : Codec) (mac : Mac) (hmac_secret : Option (List ℕ)) where
  open codec use {Value}

  pub record DcpReadResult : Type 0 where
    pub frame : DcpFrame codec
    pub raw_frame : List ℕ

  pub data SendResult : Type 0 where
    replied : DcpReadResult → SendResult
    encode_failed : EncodeError → SendResult
    context_cancelled write_failed device_timeout send_panicked send_waiting : SendResult

  unfoldable pub trailer_size : ℕ
  trailer_size = elim hmac_secret [ none ↦ 0 | some secret ↦ dcp_hmac_size ]

  unfoldable pub decode_raw : List ℕ → Outcome DcpReadResult
  decode_raw raw = elim (decode_dcp_frame codec raw) [
    | err e ↦ error (decode_dcp_error e)
    | ok frame ↦ done (record { frame = frame; raw_frame = raw })
  ]

  -- From the reading of the payload on.
  unfoldable pub read_rest : List ℕ → Port → Outcome DcpReadResult × Port
  unfolding decode_raw trailer_size
  read_rest header port =
      let (outcome, port') = read_loop (get_or header 5 0 + trailer_size) [] port in
      (
        elim outcome [
          | done payload ↦ decode_raw (header ++ payload)
          | error e ↦ error e
          | panicked ↦ panicked
          | waiting ↦ waiting
        ],
        port',
      )

  unfoldable pub read_dcp_reply : Port → Outcome DcpReadResult × Port
  unfolding read_rest
  read_dcp_reply port =
      let (outcome, port') = read_loop dcp_header_size [] port in
      elim outcome [
        | done header ↦ read_rest header port'
        | error e ↦ (error e, port')
        | panicked ↦ (panicked, port')
        | waiting ↦ (waiting, port')
      ]

  -- `db.hmacSecret == nil`, or the reply has a trailer and verifies.
  unfoldable pub is_trusted : DcpReadResult → Bool
  is_trusted reply = elim hmac_secret [
    | none ↦ true
    | some secret ↦
        not (length reply.frame.hmac == 0 || not (verify_dcp_hmac mac reply.raw_frame secret))
  ]

  unfoldable pub sealed : List ℕ → List ℕ
  sealed frame = elim hmac_secret [ none ↦ frame | some secret ↦ append_dcp_hmac mac frame secret ]

  -- The loop over the attempts, as in Daemon.Serial.
  unfoldable pub attempts :
      (ℕ → Bool)
      → (ℕ → Bool)
      → Result EncodeError (List ℕ)
      → ℕ
      → Port
      → SendResult × List (List ℕ) × Port
  attempts cancelled writes encoded zero port = (device_timeout, [], port)
  attempts cancelled writes encoded (suc left) port =
      let (outcome, port') = read_dcp_reply port in
      let (result, frames, port'') = attempts cancelled writes encoded left port' in
      if cancelled left then (context_cancelled, [], port) else elim encoded [
        | err e ↦ (encode_failed e, [], port)
        | ok frame ↦
            if writes left
            then elim outcome [
              | done reply ↦
                  if is_trusted reply
                  then (replied reply, sealed frame ∷ [], port')
                  else (result, sealed frame ∷ frames, port'')
              | error e ↦ (result, sealed frame ∷ frames, port'')
              | panicked ↦ (send_panicked, sealed frame ∷ [], port')
              | waiting ↦ (send_waiting, sealed frame ∷ [], port')
            ]
            else (write_failed, [], port)
      ]

  unfoldable pub send_dcp :
      (ℕ → Bool) → (ℕ → Bool) → ℕ → ℕ → ℕ → Value → Port → SendResult × List (List ℕ) × Port
  unfolding attempts
  send_dcp cancelled writes retry seq intent_id params port =
      attempts cancelled writes (encode_dcp_call codec seq intent_id params) retry port
