-- ===== src/Daemon/DcpBridge/Replies.antt =====
-- Which replies `SendDCP` returns.
use devagent.Base.{
  ℕ, zero, suc, ◌+◌, ◌≡◌, inl, inr, refl, ap, ◌∙◌, Bool, true, false, Option, none, some, List, [],
  ◌++◌, arith, Bool-cases, Result, ok, err, Result-cases, get_or,
}
use devagent.Protocol.Dcp.{
  Codec, Mac, EncodeError, dcp_header_size, encode_dcp_call, decode_dcp_frame, verify_dcp_hmac,
}
use devagent.Daemon.Serial.{Port, Outcome, done, error, panicked, waiting, read_loop}
use devagent.Daemon.DcpBridge.{
  DcpReadResult, SendResult, replied, decode_raw, read_rest, read_dcp_reply, is_trusted, attempts,
  send_dcp, trailer_size,
}

module _ (codec : Codec) (mac : Mac) where
  -- The bytes verify under the secret, if one is configured.
  abbrev pub IsAuthentic : Option (List ℕ) → List ℕ → Type 0
  IsAuthentic none raw = Unit
  IsAuthentic (some secret) raw = verify_dcp_hmac mac raw secret ≡ true

  module _ (hmac_secret : Option (List ℕ)) where
    -- The frame is what its bytes decode to, and they are authentic.
    pub record IsGenuine (reply : DcpReadResult codec mac hmac_secret) : Type 0 where
      pub decoded : decode_dcp_frame codec reply.raw_frame ≡ ok reply.frame
      pub authentic : IsAuthentic hmac_secret reply.raw_frame

    decode_raw-eq-done :
        (raw : List ℕ) (reply : DcpReadResult codec mac hmac_secret)
        → decode_raw codec mac hmac_secret raw ≡ done reply
        → decode_dcp_frame codec reply.raw_frame ≡ ok reply.frame
    unfolding decode_raw
    decode_raw-eq-done raw reply h = elim (Result-cases (decode_dcp_frame codec raw)) [
      | inl (e, broken) ↦ absurd (ground arith)
      | inr (frame, read) ↦
          let same_raw : raw ≡ reply.raw_frame = ground arith in
          let same_frame : frame ≡ reply.frame = ground arith in rw (← same_raw, ← same_frame) read
    ]

    rest_by :
        (outcome : Outcome (List ℕ)) (header : List ℕ) (port : Port)
        (reply : DcpReadResult codec mac hmac_secret)
        → (read_loop (get_or header 5 0 + trailer_size codec mac hmac_secret) [] port).0 ≡ outcome
        → (read_rest codec mac hmac_secret header port).0 ≡ done reply
        → decode_dcp_frame codec reply.raw_frame ≡ ok reply.frame
    unfolding read_rest
    rest_by (done payload) header port reply read h =
        decode_raw-eq-done (header ++ payload) reply (rw (read_rest, read) at h)
    rest_by (error e) header port reply read h = absurd (ground (arith, read))
    rest_by panicked header port reply read h = absurd (ground (arith, read))
    rest_by waiting header port reply read h = absurd (ground (arith, read))

    reply_by :
        (outcome : Outcome (List ℕ)) (port : Port) (reply : DcpReadResult codec mac hmac_secret)
        → (read_loop dcp_header_size [] port).0 ≡ outcome
        → (read_dcp_reply codec mac hmac_secret port).0 ≡ done reply
        → decode_dcp_frame codec reply.raw_frame ≡ ok reply.frame
    unfolding read_dcp_reply
    reply_by (done header) port reply read h =
        rest_by _ header (read_loop dcp_header_size [] port).1 reply refl
          (rw (read_dcp_reply, read) at h)
    reply_by (error e) port reply read h = absurd (ground (arith, read))
    reply_by panicked port reply read h = absurd (ground (arith, read))
    reply_by waiting port reply read h = absurd (ground (arith, read))

is_trusted-IsAuthentic :
    (codec : Codec) (mac : Mac) (hmac_secret : Option (List ℕ))
    (reply : DcpReadResult codec mac hmac_secret)
    → is_trusted codec mac hmac_secret reply ≡ true
    → IsAuthentic codec mac hmac_secret reply.raw_frame
unfolding is_trusted
is_trusted-IsAuthentic codec mac none reply h = tt
is_trusted-IsAuthentic codec mac (some secret) reply h = ground arith

module _ (codec : Codec) (mac : Mac) (hmac_secret : Option (List ℕ))
    (cancelled writes : ℕ → Bool) where
  injected :
      {found reply : DcpReadResult codec mac hmac_secret}
      → ◌≡◌ {A = SendResult codec mac hmac_secret} (replied found) (replied reply)
      → found ≡ reply
  injected h = cc

  -- What one attempt comes to: a genuine reply of its own, or what the later attempts come to.
  attempt_by :
      (outcome : Outcome (DcpReadResult codec mac hmac_secret)) (frame : List ℕ) (left : ℕ)
      (port : Port) (reply : DcpReadResult codec mac hmac_secret)
      → (read_dcp_reply codec mac hmac_secret port).0 ≡ outcome
      → cancelled left ≡ false
      → writes left ≡ true
      → (attempts codec mac hmac_secret cancelled writes (ok frame) (suc left) port).0
        ≡ replied reply
      → ((attempts codec mac hmac_secret cancelled writes
              (ok frame)
              left
              (read_dcp_reply codec mac hmac_secret port).1).0
            ≡ replied reply
          → IsGenuine codec mac hmac_secret reply)
      → IsGenuine codec mac hmac_secret reply
  unfolding attempts
  attempt_by (done found) frame left port reply read live written h later =
      elim (Bool-cases (is_trusted codec mac hmac_secret found)) [
        | inr distrusted ↦ later (rw (attempts, live, written, read, distrusted) at h)
        | inl trusted ↦
            let same : found ≡ reply =
              injected (rw (attempts, live, written, read, trusted) at h) in
            record {
              decoded = reply_by codec mac hmac_secret _ port reply refl (read ∙ ap done same);
              authentic = is_trusted-IsAuthentic codec mac hmac_secret reply (rw (← same) trusted);
            }
      ]
  attempt_by (error e) frame left port reply read live written h later =
      later (rw (attempts, live, written, read) at h)
  attempt_by panicked frame left port reply read live written h later =
      absurd (ground (arith, rw (attempts, live, written, read) at h))
  attempt_by waiting frame left port reply read live written h later =
      absurd (ground (arith, rw (attempts, live, written, read) at h))

  attempts-IsGenuine :
      (encoded : Result EncodeError (List ℕ)) (retry : ℕ) (port : Port)
      (reply : DcpReadResult codec mac hmac_secret)
      → (attempts codec mac hmac_secret cancelled writes encoded retry port).0 ≡ replied reply
      → IsGenuine codec mac hmac_secret reply
  unfolding attempts
  attempts-IsGenuine encoded zero port reply h = absurd (ground (arith, h))
  attempts-IsGenuine (err e) (suc left) port reply h = elim (Bool-cases (cancelled left)) [
    | inl over ↦ absurd (ground (arith, rw (attempts, over) at h))
    | inr live ↦ absurd (ground (arith, rw (attempts, live) at h))
  ]
  attempts-IsGenuine (ok frame) (suc left) port reply h = elim (Bool-cases (cancelled left)) [
    | inl over ↦ absurd (ground (arith, rw (attempts, over) at h))
    | inr live ↦ elim (Bool-cases (writes left)) [
      | inr broken ↦ absurd (ground (arith, rw (attempts, live, broken) at h))
      | inl written ↦
          attempt_by (read_dcp_reply codec mac hmac_secret port).0 frame left port reply refl live
            written h
            (attempts-IsGenuine (ok frame) left (read_dcp_reply codec mac hmac_secret port).1 reply)
    ]
  ]

  -- Whatever the port returns and however often `SendDCP` tries: if it returns a reply, then the frame
  -- is what the bytes that were read decode to, and, if a secret is configured, `VerifyDCPHMAC` accepts
  -- these bytes under it.
  pub send_dcp-IsGenuine :
      (retry seq intent_id : ℕ) (params : codec.Value) (port : Port)
      (reply : DcpReadResult codec mac hmac_secret)
      → (send_dcp codec mac hmac_secret cancelled writes retry seq intent_id params port).0
        ≡ replied reply
      → IsGenuine codec mac hmac_secret reply
  unfolding send_dcp
  send_dcp-IsGenuine retry seq intent_id params port reply h =
      attempts-IsGenuine (encode_dcp_call codec seq intent_id params) retry port reply h
