-- ===== src/Protocol/Urpc/Request.antt =====
-- A request frame, from the encoder of the daemon to the reader of the firmware.
use devagent.Base.{
  ◌⊎◌, inl, inr, Bool-cases, ltb, ℕ, suc, ◌+◌, ◌%◌, ◌≤◌, ◌<◌, ◌≡◌, refl, List, [], ◌∷◌, ◌++◌, arith,
  ltb, ==_iff, length, get_or, take, ok, err, length-append, Bool-cases, inl, inr, take-append,
}
use devagent.Protocol.Urpc.{
  UrpcRequest, max_payload_size, header_request, crc8, encode_request, read_request,
}

-- Reading at, and cutting at, the end of a list that another follows.
get_or-append : (xs : List ℕ) (x d : ℕ) → get_or (xs ++ x ∷ []) (length xs) d ≡ x
get_or-append [] x d = refl
get_or-append (y ∷ xs) x d = get_or-append xs x d

-- The frame that `EncodeRequest` makes of a payload that fits.
frame_of : UrpcRequest → List ℕ
frame_of req =
    header_request
    ∷ req.seq
    ∷ req.cmd
    ∷ (length req.payload % 256)
    ∷ (req.payload ++ crc8 (req.seq ∷ req.cmd ∷ (length req.payload % 256) ∷ req.payload) ∷ [])

encode_request-eq-ok :
    (req : UrpcRequest)
    → length req.payload ≤ max_payload_size
    → encode_request req ≡ ok (frame_of req)
unfolding encode_request frame_of
encode_request-eq-ok req fits = ground arith

-- The firmware's reading of a header, a payload of the announced size and a checksum.
read_request_parts :
    (seq cmd n c : ℕ) (payload : List ℕ)
    → n ≡ length payload
    → c ≡ crc8 (seq ∷ cmd ∷ n ∷ payload)
    → read_request (header_request ∷ seq ∷ cmd ∷ n ∷ (payload ++ c ∷ []))
      ≡ ok (record { seq = seq; cmd = cmd; payload = payload })
unfolding read_request
read_request_parts seq cmd n c payload size sum =
    let four : 4 + n ≡ suc (suc (suc (suc n))) = omega arith in
    let three : 3 + n ≡ suc (suc (suc n)) = omega arith in
    let body : take n (payload ++ c ∷ []) ≡ payload = rw size (take-append payload (c ∷ [])) in
    let last : get_or (payload ++ c ∷ []) n 0 ≡ c = rw size (get_or-append payload c 0) in
    let long : length (payload ++ c ∷ []) ≡ n + 1 = omega (arith, length-append payload (c ∷ [])) in
    rw (four, three, body, last, long, ← sum) (ground (arith, ==_iff c c))

read_request-frame_of :
    (req : UrpcRequest)
    → length req.payload ≤ max_payload_size
    → read_request (frame_of req) ≡ ok req
unfolding frame_of
read_request-frame_of req fits =
    let size : length req.payload % 256 ≡ length req.payload = omega arith in
    read_request_parts req.seq req.cmd _ _ req.payload size refl

-- `EncodeRequest` refuses exactly the payloads above the limit, with their size; every other request
-- becomes a frame of its payload and five bytes, which the firmware reads back as the same request.
pub read_request-encode_request :
    (req : UrpcRequest)
    → ((max_payload_size < length req.payload) × (encode_request req ≡ err (length req.payload)))
      ⊎ ((length req.payload ≤ max_payload_size)
          × (frame : List ℕ) × (encode_request req ≡ ok frame)
          × (length frame ≡ length req.payload + 5)
          × (read_request frame ≡ ok req))
read_request-encode_request req = elim (Bool-cases (ltb max_payload_size (length req.payload))) [
  | inl big ↦ inl (ground arith, unfold encode_request in ground arith)
  | inr small ↦
      let fits : length req.payload ≤ max_payload_size = ground arith in
      inr (
        fits,
        frame_of req,
        encode_request-eq-ok req fits,
        unfold frame_of in omega (arith, length-append {0} req.payload _),
        read_request-frame_of req fits,
      )
]
