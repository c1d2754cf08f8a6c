-- ===== src/Protocol/Urpc.antt =====
-- internal/protocol/urpc.go, and the reading of a request frame by the firmware,
-- internal/lite/main/urpc_agent.c, of which the rest is in Firmware. A frame is a list of bytes.
pub mod Crc
pub mod Ack
pub mod Request
use Prim.Native.Nat.{bit_and, bit_xor}
use devagent.Base.{
  ℕ, zero, suc, ◌+◌, ◌-◌, ◌*◌, ◌%◌, ◌<◌, Bool, true, false, Option, none, some, List, [], ◌∷◌, ◌++◌,
  ltb, leb, ◌==◌, if◌then◌else◌, length, take, drop, get_or, Result, ok, err,
}

abbrev pub header_request : ℕ
header_request = 0xAA

abbrev pub header_ack : ℕ
header_ack = 0xBB

abbrev pub max_payload_size : ℕ
max_payload_size = 64

abbrev pub status_ok : ℕ
status_ok = 0x00

abbrev pub status_busy : ℕ
status_busy = 0x01

abbrev pub status_invalid_cmd : ℕ
status_invalid_cmd = 0x02

abbrev pub status_error : ℕ
status_error = 0xFF

pub record UrpcRequest : Type 0 where
  pub seq : ℕ
  pub cmd : ℕ
  pub payload : List ℕ

pub record UrpcAck : Type 0 where
  pub seq : ℕ
  pub status : ℕ
  pub queue_depth : ℕ

-- One round of the inner loop: the shift is on a byte.
unfoldable pub crc_bit : ℕ → ℕ
crc_bit crc = if bit_and crc 0x80 == 0 then (crc * 2) % 256 else bit_xor ((crc * 2) % 256) 0x07

unfoldable pub crc_bits : ℕ → ℕ → ℕ
unfolding crc_bit
crc_bits zero crc = crc
crc_bits (suc n) crc = crc_bits n (crc_bit crc)

unfoldable pub crc_from : ℕ → List ℕ → ℕ
unfolding crc_bits
crc_from crc [] = crc
crc_from crc (b ∷ bs) = crc_from (crc_bits 8 (bit_xor crc b)) bs

unfoldable pub crc8 : List ℕ → ℕ
unfolding crc_from
crc8 bytes = crc_from 0x00 bytes

-- The size of the payload that is refused.
unfoldable pub encode_request : UrpcRequest → Result ℕ (List ℕ)
encode_request req =
    if ltb max_payload_size (length req.payload)
    then err (length req.payload)
    else let frame =
        (header_request ∷ req.seq ∷ req.cmd ∷ (length req.payload % 256) ∷ []) ++ req.payload in
      ok (frame ++ crc8 (drop 1 frame) ∷ [])

unfoldable pub encode_ack : UrpcAck → List ℕ
encode_ack ack =
    let bytes = header_ack ∷ ack.seq ∷ ack.status ∷ ack.queue_depth ∷ [] in
    bytes ++ crc8 (drop 1 bytes) ∷ []

pub data AckError : Type 0 where
  too_short : ℕ → AckError
  invalid_header : ℕ → AckError
  crc_mismatch : ℕ → ℕ → AckError

-- `frame[i]` below the length, and `frame[1 : len(frame)-1]`.
unfoldable pub decode_ack : List ℕ → Result AckError UrpcAck
decode_ack frame =
    let last = length frame - 1 in
    let expected = crc8 (drop 1 (take last frame)) in
    if ltb (length frame) 5
    then err (too_short (length frame))
    else if get_or frame 0 0 == header_ack
    then (if get_or frame last 0 == expected
        then ok (record {
          seq = get_or frame 1 0;
          status = get_or frame 2 0;
          queue_depth = get_or frame 3 0;
        })
        else err (crc_mismatch expected (get_or frame last 0)))
    else err (invalid_header (get_or frame 0 0))

-- `process_frame` up to the test for a repeated frame: what the firmware reads from the first `len`
-- bytes of its buffer, or the error ACK that it sends.
unfoldable pub read_request : List ℕ → Result UrpcAck UrpcRequest
read_request frame =
    let seq = get_or frame 1 0 in
    let payload_len = get_or frame 3 0 in
    let body = take (3 + payload_len) (drop 1 frame) in
    if ltb (length frame) 4
    then err (record { seq = 0; status = 0xFF; queue_depth = 0 })
    else if get_or frame 0 0 == header_request
    then (if ltb (length frame) (4 + payload_len + 1)
        then err (record { seq = seq; status = 0xFF; queue_depth = 0 })
        else if get_or frame (4 + payload_len) 0 == crc8 body
        then ok (record {
          seq = seq;
          cmd = get_or frame 2 0;
          payload = take payload_len (drop 4 frame);
        })
        else err (record { seq = seq; status = 0xFF; queue_depth = 0 }))
    else err (record { seq = 0; status = 0xFF; queue_depth = 0 })
