-- ===== src/Tests/Protocol.antt =====
-- internal/protocol's tests, and instances of the theorems on the frames.
use devagent.Base.{◌⊎◌, ℕ, ◌≡◌, ◌≢◌, ◌↔◌, ◌≤◌, ◌<◌, refl, true, List, [], ◌∷◌, length, ok, err}
use devagent.Tests.Libraries.{codec, mac}
use devagent.Protocol.Urpc.{
  UrpcRequest, UrpcAck, max_payload_size, crc8, encode_request, encode_ack, decode_ack,
  read_request,
}
use devagent.Protocol.Urpc.Ack.{decode_ack_iff}
use devagent.Protocol.Urpc.Request.{read_request-encode_request}
use devagent.Protocol.Dcp.{
  dcp_reply, encode_dcp_reply, decode_dcp_frame, verify_dcp_hmac, append_dcp_hmac,
}
use devagent.Protocol.Dcp.Frames.{plain, decode-encode_dcp_reply}
use devagent.Protocol.Dcp.Trailer.{verify_dcp_hmac_iff}

abbrev ack : UrpcAck
ack = record { seq = 5; status = 0; queue_depth = 2 }

abbrev frame : List ℕ
frame = 0xBB ∷ 5 ∷ 0 ∷ 2 ∷ 0xCE ∷ []

encode_ack_run : encode_ack ack ≡ frame
unfolding encode_ack crc8
encode_ack_run = refl

decode_ack_iff_example : (decode_ack frame ≡ ok ack) ↔ (frame ≡ encode_ack ack)
decode_ack_iff_example = decode_ack_iff frame ack refl

abbrev request : UrpcRequest
request = record { seq = 1; cmd = 161; payload = b'1' ∷ b' ' ∷ b'1' ∷ [] }

read_request-encode_request_example :
    ((max_payload_size < 3) × (encode_request request ≡ err 3))
    ⊎ ((3 ≤ max_payload_size)
        × (frame : List ℕ) × (encode_request request ≡ ok frame)
        × (length frame ≡ 8)
        × (read_request frame ≡ ok request))
read_request-encode_request_example = read_request-encode_request request

decode-encode_dcp_reply_example :
    (frame : List ℕ) × (encode_dcp_reply codec 7 4660 "ok" (8 ∷ []) ≡ ok frame)
    × (((3 < 256) × (decode_dcp_frame codec frame ≡ ok (plain codec dcp_reply 7 4660 (2 ∷ 8 ∷ []))))
        ⊎ ((256 ≤ 3)
            × ((kind seq intent_id : ℕ) (v : List ℕ)
                → decode_dcp_frame codec frame ≢ ok (plain codec kind seq intent_id v))))
decode-encode_dcp_reply_example =
    decode-encode_dcp_reply codec 7 4660 "ok" (8 ∷ []) (1 ∷ 2 ∷ 8 ∷ []) refl

abbrev call_frame : List ℕ
call_frame = 1 ∷ 1 ∷ 7 ∷ 18 ∷ 52 ∷ 2 ∷ 8 ∷ 9 ∷ []

verify_dcp_hmac_iff_example :
    (verify_dcp_hmac mac call_frame (42 ∷ []) ≡ true)
    ↔ ((8 < 8) × (call_frame ≡ append_dcp_hmac mac call_frame (42 ∷ [])))
verify_dcp_hmac_iff_example = verify_dcp_hmac_iff mac (42 ∷ []) call_frame
