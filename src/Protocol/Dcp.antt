-- ===== src/Protocol/Dcp.antt =====
-- internal/protocol/dcp.go. The CBOR codec (github.com/fxamacker/cbor) and SHA-256 with its HMAC are
-- not this program's: `Codec` and `Mac` hold what the code calls.
pub mod Frames
pub mod Trailer
use devagent.Base.{
  ℕ, zero, suc, ◌+◌, ◌-◌, ◌*◌, ◌/◌, ◌%◌, ◌<◌, ◌≡◌, String, Bool, true, false, not, ◌&&◌, Option,
  none, some, List, [], ◌∷◌, ◌++◌, ltb, leb, ◌==◌, if◌then◌else◌, length, take, drop, get_or,
  Result, ok, err, ◌>>=◌,
}

-- `Value` is `map[string]any`. `decoded` is a value as it comes back from the wire (CBOR has one
-- type of integers, so an `int` comes back as a `uint64`), and `status_result` the map with the keys
-- "status" and "result".
pub record Codec : Type 1 where
  pub Value : Type 0
  pub nil_map : Value
  pub status_result : String → Value → Value
  pub marshal : Value → Option (List ℕ)
  pub unmarshal : List ℕ → Option Value
  pub decoded : Value → Value
  pub unmarshal-marshal :
      (v : Value) (bytes : List ℕ) → marshal v ≡ some bytes → unmarshal bytes ≡ some (decoded v)
  pub marshal-pos : (v : Value) (bytes : List ℕ) → marshal v ≡ some bytes → 0 < length bytes

-- `sum secret message` is HMAC-SHA256, and `digest` is SHA-256.
pub record Mac : Type 0 where
  pub sum : List ℕ → List ℕ → List ℕ
  pub digest : List ℕ → List ℕ
  pub length-sum : (secret message : List ℕ) → length (sum secret message) ≡ 32

abbrev pub dcp_version : ℕ
dcp_version = 1

abbrev pub dcp_call : ℕ
dcp_call = 0x01

abbrev pub dcp_reply : ℕ
dcp_reply = 0x02

abbrev pub dcp_event : ℕ
dcp_event = 0x03

abbrev pub dcp_error : ℕ
dcp_error = 0x04

abbrev pub dcp_dry_run : ℕ
dcp_dry_run = 0x81

abbrev pub dcp_header_size : ℕ
dcp_header_size = 6

abbrev pub dcp_hmac_size : ℕ
dcp_hmac_size = 16

abbrev pub dcp_max_payload : ℕ
dcp_max_payload = 64

pub data EncodeError : Type 0 where
  cbor_marshal : EncodeError
  payload_too_large : ℕ → EncodeError

pub data DecodeError : Type 0 where
  frame_too_short : ℕ → DecodeError
  unsupported_version : ℕ → DecodeError
  payload_truncated : ℕ → ℕ → DecodeError
  cbor_unmarshal : DecodeError

-- `hmac.Equal`: the equality of the bytes.
unfoldable pub bytes_equal : List ℕ → List ℕ → Bool
bytes_equal [] [] = true
bytes_equal [] (y ∷ ys) = false
bytes_equal (x ∷ xs) [] = false
bytes_equal (x ∷ xs) (y ∷ ys) = if x == y then bytes_equal xs ys else false

-- Six header bytes, the 16-bit intent in big-endian order and the size as a byte, and the payload.
unfoldable pub make_frame : ℕ → ℕ → ℕ → List ℕ → List ℕ
make_frame kind seq intent_id payload =
    dcp_version
    ∷ kind
    ∷ seq
    ∷ (intent_id / 256)
    ∷ (intent_id % 256)
    ∷ (length payload % 256)
    ∷ payload

module _ (codec : Codec) where
  open codec use {Value, nil_map, status_result, marshal, unmarshal}

  pub record DcpFrame : Type 0 where
    pub ver : ℕ
    pub kind : ℕ
    pub seq : ℕ
    pub intent_id : ℕ
    pub payload : Value
    pub hmac : List ℕ

  unfoldable pub encode_dcp_call : ℕ → ℕ → Value → Result EncodeError (List ℕ)
  unfolding make_frame
  encode_dcp_call seq intent_id params = elim (marshal params) [
    | none ↦ err cbor_marshal
    | some payload ↦
        if ltb dcp_max_payload (length payload)
        then err (payload_too_large (length payload))
        else ok (make_frame dcp_call seq intent_id payload)
  ]

  -- `data[1] = DCPDryRun`
  unfoldable pub mark_dry_run : List ℕ → List ℕ
  mark_dry_run (ver ∷ kind ∷ rest) = ver ∷ dcp_dry_run ∷ rest
  mark_dry_run frame = frame

  unfoldable pub encode_dcp_dry_run : ℕ → ℕ → Value → Result EncodeError (List ℕ)
  unfolding encode_dcp_call mark_dry_run
  encode_dcp_dry_run seq intent_id params = do
    frame ← encode_dcp_call seq intent_id params
    ok (mark_dry_run frame)

  -- No bound on the payload is tested here.
  unfoldable pub encode_dcp_reply : ℕ → ℕ → String → Value → Result EncodeError (List ℕ)
  unfolding make_frame
  encode_dcp_reply seq intent_id status result = elim (marshal (status_result status result)) [
    | none ↦ err cbor_marshal
    | some payload ↦ ok (make_frame dcp_reply seq intent_id payload)
  ]

  -- The payload of a frame whose size byte is `n`: a nil map where the size is 0.
  unfoldable pub read_payload : ℕ → List ℕ → Result DecodeError Value
  read_payload n bytes =
      if n == 0
      then ok nil_map
      else elim (unmarshal bytes) [ none ↦ err cbor_unmarshal | some v ↦ ok v ]

  unfoldable pub decode_dcp_frame : List ℕ → Result DecodeError DcpFrame
  unfolding read_payload
  decode_dcp_frame bytes =
      let payload_len = get_or bytes 5 0 in
      if ltb (length bytes) dcp_header_size
      then err (frame_too_short (length bytes))
      else if not (get_or bytes 0 0 == dcp_version)
      then err (unsupported_version (get_or bytes 0 0))
      else if ltb (length bytes) (dcp_header_size + payload_len)
      then err (payload_truncated payload_len (length bytes - dcp_header_size))
      else do
        params ← read_payload payload_len (take payload_len (drop dcp_header_size bytes))
        ok (record {
          ver = get_or bytes 0 0;
          kind = get_or bytes 1 0;
          seq = get_or bytes 2 0;
          intent_id = get_or bytes 3 0 * 256 + get_or bytes 4 0;
          payload = params;
          hmac = drop payload_len (drop dcp_header_size bytes);
        })

module _ (mac : Mac) where
  -- `IntentID`, on the bytes of the name
  unfoldable pub intent_id_of : List ℕ → ℕ
  intent_id_of name = get_or (mac.digest name) 0 0 * 256 + get_or (mac.digest name) 1 0

  unfoldable pub verify_dcp_hmac : List ℕ → List ℕ → Bool
  unfolding bytes_equal
  verify_dcp_hmac frame secret =
      let frame_end = dcp_header_size + get_or frame 5 0 in
      if ltb (length frame) dcp_header_size
      then false
      else if leb (length frame) frame_end
      then false
      else bytes_equal (drop frame_end frame)
          (take dcp_hmac_size (mac.sum secret (take frame_end frame)))

  unfoldable pub append_dcp_hmac : List ℕ → List ℕ → List ℕ
  append_dcp_hmac frame secret = frame ++ take dcp_hmac_size (mac.sum secret frame)
