-- ===== src/Protocol/Dcp/Frames.antt =====
-- Round trips of DCP frames.
use devagent.Base.{
  ◌⊎◌, inl, inr, Bool-cases, ltb, ℕ, ◌+◌, ◌*◌, ◌/◌, ◌%◌, ◌≤◌, ◌<◌, ◌≡◌, ◌≢◌, String, some, List, [],
  ◌++◌, arith, ltb, length, get_or, drop, ok, err, length-append, take-append, drop-append,
  append-nil, length-drop, ap, sym,
}
use devagent.Protocol.Dcp.{
  Codec, DcpFrame, dcp_version, dcp_call, dcp_dry_run, dcp_reply, dcp_max_payload, dcp_header_size,
  make_frame, encode_dcp_call, encode_dcp_dry_run, encode_dcp_reply, read_payload, decode_dcp_frame,
  payload_too_large,
}

long_trailer : (payload : List ℕ) → 256 ≤ length payload → drop (length payload % 256) payload ≢ []
long_trailer payload big e =
    absurd (omega (arith, length-drop (length payload % 256) payload, ap length e))

module _ (codec : Codec) where
  open codec use {
    Value, nil_map, status_result, marshal, unmarshal, decoded, unmarshal-marshal, marshal-pos,
  }

  -- The frame that is read from a header, a payload of fewer than 256 bytes and a trailer.
  pub decode-make_frame :
      (kind seq intent_id : ℕ) (v : Value) (payload trailer : List ℕ)
      → marshal v ≡ some payload
      → length payload < 256
      → decode_dcp_frame codec (make_frame kind seq intent_id payload ++ trailer)
        ≡ ok (record {
          ver = dcp_version;
          kind = kind;
          seq = seq;
          intent_id = intent_id;
          payload = decoded v;
          hmac = trailer;
        })
  unfolding decode_dcp_frame make_frame read_payload
  decode-make_frame kind seq intent_id v payload trailer m small =
      let size : length payload % 256 ≡ length payload = omega arith in
      let intent : intent_id / 256 * 256 + intent_id % 256 ≡ intent_id = omega arith in
      let long : length (payload ++ trailer) ≡ length payload + length trailer =
        length-append payload trailer in
      let read : unmarshal payload ≡ some (decoded v) = unmarshal-marshal v payload m in
      rw (size, take-append, drop-append, intent, long, read)
        (ground (arith, marshal-pos v payload m))

  -- What a reader gets from a frame of this kind, with no trailer.
  abbrev pub plain : ℕ → ℕ → ℕ → Value → DcpFrame codec
  plain kind seq intent_id v = record {
    ver = dcp_version;
    kind = kind;
    seq = seq;
    intent_id = intent_id;
    payload = v;
    hmac = [];
  }

  decode-make_frame_plain :
      (kind seq intent_id : ℕ) (v : Value) (payload : List ℕ)
      → marshal v ≡ some payload
      → length payload < 256
      → decode_dcp_frame codec (make_frame kind seq intent_id payload)
        ≡ ok (plain kind seq intent_id (decoded v))
  decode-make_frame_plain kind seq intent_id v payload m small =
      rw (← append-nil (make_frame kind seq intent_id payload))
        (decode-make_frame kind seq intent_id v payload [] m small)

  -- `EncodeDCPCall` and `EncodeDCPDryRun` refuse exactly the parameters whose encoding is longer than
  -- 64 bytes, and every other pair of an intent and parameters that can be encoded comes back from
  -- `DecodeDCPFrame`, under the kind of the frame and with no trailer.
  pub decode-encode_dcp_call :
      (seq intent_id : ℕ) (v : Value) (payload : List ℕ)
      → marshal v ≡ some payload
      → ((dcp_max_payload < length payload)
          × (encode_dcp_call codec seq intent_id v ≡ err (payload_too_large (length payload)))
          × (encode_dcp_dry_run codec seq intent_id v ≡ err (payload_too_large (length payload))))
        ⊎ ((length payload ≤ dcp_max_payload)
            × (call : List ℕ) × (dry : List ℕ) × (encode_dcp_call codec seq intent_id v ≡ ok call)
            × (decode_dcp_frame codec call ≡ ok (plain dcp_call seq intent_id (decoded v)))
            × (encode_dcp_dry_run codec seq intent_id v ≡ ok dry)
            × (decode_dcp_frame codec dry ≡ ok (plain dcp_dry_run seq intent_id (decoded v))))
  unfolding encode_dcp_dry_run
  decode-encode_dcp_call seq intent_id v payload m =
      elim (Bool-cases (ltb dcp_max_payload (length payload))) [
        | inl big ↦ inl (ground arith, ground arith, ground arith)
        | inr fits ↦ inr (
          ground arith,
          make_frame dcp_call seq intent_id payload,
          make_frame dcp_dry_run seq intent_id payload,
          ground arith,
          decode-make_frame_plain dcp_call seq intent_id v payload m (ground arith),
          ground arith,
          decode-make_frame_plain dcp_dry_run seq intent_id v payload m (ground arith),
        )
      ]

  hmac_of_decoded :
      (bytes : List ℕ) (f : DcpFrame codec)
      → decode_dcp_frame codec bytes ≡ ok f
      → f.hmac ≡ drop (get_or bytes 5 0) (drop dcp_header_size bytes)
  unfolding decode_dcp_frame read_payload
  hmac_of_decoded bytes f e = ground arith

  -- A reply comes back from `DecodeDCPFrame` if its encoding is shorter than 256 bytes. A longer one is
  -- encoded all the same, with a size byte that has wrapped, and what is read from it, if anything, is
  -- no frame without a trailer.
  pub decode-encode_dcp_reply :
      (seq intent_id : ℕ) (status : String) (result : Value) (payload : List ℕ)
      → marshal (status_result status result) ≡ some payload
      → (frame : List ℕ) × (encode_dcp_reply codec seq intent_id status result ≡ ok frame)
        × (((length payload < 256)
              × (decode_dcp_frame codec frame
                  ≡ ok (plain dcp_reply seq intent_id (decoded (status_result status result)))))
            ⊎ ((256 ≤ length payload)
                × ((kind seq' intent_id' : ℕ) (v : Value)
                    → decode_dcp_frame codec frame ≢ ok (plain kind seq' intent_id' v))))
  unfolding encode_dcp_reply
  decode-encode_dcp_reply seq intent_id status result payload m = (
    make_frame dcp_reply seq intent_id payload,
    ground arith,
    elim (Bool-cases (ltb (length payload) 256)) [
      | inl small ↦
          let short : length payload < 256 = ground arith in
          inl (
            short,
            decode-make_frame_plain dcp_reply seq intent_id (status_result status result) payload m
                short,
          )
      | inr big ↦
          let long : 256 ≤ length payload = ground arith in
          inr (
            long,
            λ kind seq' intent_id' v read.
                let rest =
                  hmac_of_decoded (make_frame dcp_reply seq intent_id payload)
                    (plain kind seq' intent_id' v) read in
                long_trailer payload long (sym (unfold make_frame in rest)),
          )
    ],
  )
