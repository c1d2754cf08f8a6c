-- ===== src/Tests/Serial.antt =====
-- internal/daemon's serial bridges: runs, and instances of the theorems.
use devagent.Base.{ℕ, ◌≡◌, refl, true, false, some, List, [], ◌∷◌, ◌++◌, ok, replicate}
use devagent.Tests.Libraries.{codec, mac}
use devagent.Protocol.Urpc.{UrpcRequest, UrpcAck, encode_request, encode_ack, crc8}
use devagent.Protocol.Dcp.{
  decode_dcp_frame, read_payload, encode_dcp_call, verify_dcp_hmac, bytes_equal,
}
use devagent.Daemon.Serial.{
  Port, bytes, panicked, read_loop, from_header, read_once, first_five, decode_outcome,
  complete_ack, read_urpc_ack, send_urpc, send_waiting,
}
use devagent.Daemon.Serial.Reading.{in_parts, Gives, read_urpc_ack-in_parts}
use devagent.Daemon.Serial.Sending.{silent, send_urpc-silent}
use devagent.Daemon.DcpBridge
use devagent.Daemon.DcpBridge.{DcpReadResult, replied, send_dcp}
use devagent.Daemon.DcpBridge.Replies.{IsGenuine, send_dcp-IsGenuine}

abbrev ack : UrpcAck
ack = record { seq = 5; status = 0; queue_depth = 2 }

abbrev parts : List (List ℕ)
parts = (0xBB ∷ []) ∷ [] ∷ (5 ∷ 0 ∷ 2 ∷ []) ∷ (0xCE ∷ 0xBB ∷ []) ∷ []

stream_starts : 0xBB ∷ 5 ∷ 0 ∷ 2 ∷ 0xCE ∷ 0xBB ∷ [] ≡ encode_ack ack ++ 0xBB ∷ []
unfolding encode_ack crc8
stream_starts = refl

read_urpc_ack-in_parts_example : Gives (read_urpc_ack (in_parts parts)) ack (0xBB ∷ [])
read_urpc_ack-in_parts_example = read_urpc_ack-in_parts ack parts (0xBB ∷ []) stream_starts

-- Four bytes of noise before the header, and a read that brings nothing more: `buf[:5]` is out of range.
short_after_noise : (read_urpc_ack (bytes (1 ∷ 2 ∷ 3 ∷ 4 ∷ 0xBB ∷ []) ∷ bytes [] ∷ [])).0 ≡ panicked
unfolding read_urpc_ack read_loop complete_ack from_header read_once first_five decode_outcome
short_after_noise = refl

abbrev led : UrpcRequest
led = record { seq = 1; cmd = 161; payload = 13 ∷ 1 ∷ [] }

abbrev led_frame : List ℕ
unfolding crc8
led_frame = 0xAA ∷ 1 ∷ 161 ∷ 2 ∷ 13 ∷ 1 ∷ crc8 (1 ∷ 161 ∷ 2 ∷ 13 ∷ 1 ∷ []) ∷ []

led_encoded : encode_request led ≡ ok led_frame
unfolding encode_request led_frame crc8
led_encoded = refl

send_urpc-silent_example :
    send_urpc (λ left. false) (λ left. true) 3 led (silent 1000)
    ≡ (send_waiting, led_frame ∷ [], [])
send_urpc-silent_example =
    send_urpc-silent (λ left. false) (λ left. true) 2 1000 led led_frame led_encoded refl refl

-- A reply with an empty payload and its trailer, in two parts.
abbrev reply_head : List ℕ
reply_head = 1 ∷ 2 ∷ 7 ∷ 18 ∷ 52 ∷ 0 ∷ []

abbrev reply_raw : List ℕ
reply_raw = reply_head ++ replicate 16 6

abbrev secret : List ℕ
secret = 42 ∷ []

abbrev reply : DcpReadResult codec mac (some secret)
reply = record {
  frame = record {
    ver = 1;
    kind = 2;
    seq = 7;
    intent_id = 4660;
    payload = [];
    hmac = replicate 16 6;
  };
  raw_frame = reply_raw;
}

abbrev reply_port : Port
reply_port = bytes (1 ∷ 2 ∷ 7 ∷ []) ∷ bytes (18 ∷ 52 ∷ 0 ∷ replicate 16 6) ∷ []

reply_taken :
    (send_dcp codec mac (some secret) (λ left. false) (λ left. true) 3 7 4660 (8 ∷ []) reply_port).0
    ≡ replied reply
unfolding send_dcp DcpBridge.attempts DcpBridge.read_dcp_reply DcpBridge.read_rest
    DcpBridge.decode_raw DcpBridge.trailer_size DcpBridge.is_trusted read_loop decode_dcp_frame
    read_payload encode_dcp_call verify_dcp_hmac bytes_equal
reply_taken = refl

send_dcp-IsGenuine_example : IsGenuine codec mac (some secret) reply
send_dcp-IsGenuine_example =
    send_dcp-IsGenuine codec mac (some secret) (λ left. false) (λ left. true) 3 7 4660 (8 ∷ [])
      reply_port reply reply_taken
