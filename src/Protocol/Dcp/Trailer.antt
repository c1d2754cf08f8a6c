-- ===== src/Protocol/Dcp/Trailer.antt =====
-- The HMAC trailer of a DCP frame.
use devagent.Base.{
  ℕ, zero, suc, ◌+◌, ◌<◌, ◌≡◌, ◌↔◌, refl, sym, ap, ◌∙◌, true, List, [], ◌∷◌, ◌++◌, arith, ==_iff,
  length, get_or, take, drop, length-append, take-append, take-append-drop, length-take_of_le,
  append_cancel_left,
}
use devagent.Protocol.Dcp.{
  Mac, dcp_header_size, dcp_hmac_size, bytes_equal, verify_dcp_hmac, append_dcp_hmac,
}

pub bytes_equal→eq : (xs ys : List ℕ) → bytes_equal xs ys ≡ true → xs ≡ ys
unfolding bytes_equal
bytes_equal→eq [] [] h = refl
bytes_equal→eq [] (y ∷ ys) h = cc
bytes_equal→eq (x ∷ xs) [] h = cc
bytes_equal→eq (x ∷ xs) (y ∷ ys) h = ground (arith, ==_iff x y, bytes_equal→eq xs ys)

pub bytes_equal_refl : (xs : List ℕ) → bytes_equal xs xs ≡ true
unfolding bytes_equal
bytes_equal_refl [] = refl
bytes_equal_refl (x ∷ xs) = ground (arith, ==_iff x x, bytes_equal_refl xs)

module _ (mac : Mac) (secret frame : List ℕ) where
  abbrev body_end : ℕ
  body_end = dcp_header_size + get_or frame 5 0

  abbrev tag : List ℕ
  tag = take dcp_hmac_size (mac.sum secret (take body_end frame))

  verified :
      verify_dcp_hmac mac frame secret ≡ true
      → (body_end < length frame) × (bytes_equal (drop body_end frame) tag ≡ true)
  unfolding verify_dcp_hmac
  verified h = (ground arith, ground arith)

  verify_tag :
      body_end < length frame → drop body_end frame ≡ tag → verify_dcp_hmac mac frame secret ≡ true
  unfolding verify_dcp_hmac
  verify_tag long e = ground (arith, bytes_equal_refl tag)

  -- `VerifyDCPHMAC` accepts exactly the frames that `AppendDCPHMAC` makes, with the same secret, of
  -- their header and announced payload.
  pub verify_dcp_hmac_iff : (verify_dcp_hmac mac frame secret ≡ true) ↔ (
      (dcp_header_size + get_or frame 5 0 < length frame)
      × (frame ≡ append_dcp_hmac mac (take (dcp_header_size + get_or frame 5 0) frame) secret))
  unfolding append_dcp_hmac
  verify_dcp_hmac_iff = (
    λ h.
        let (long, same) = verified h in
        (
          long,
          sym (take-append-drop body_end frame)
              ∙ ap (◌++◌ (take body_end frame)) (bytes_equal→eq (drop body_end frame) tag same),
        ),
    λ h. verify_tag h.0 (
        append_cancel_left (take body_end frame) (drop body_end frame) tag
          (take-append-drop body_end frame ∙ h.1)),
  )

get_or-append_left :
    (i : ℕ) (xs ys : List ℕ) → i < length xs → get_or (xs ++ ys) i 0 ≡ get_or xs i 0
get_or-append_left i [] ys h = elim h [ ]
get_or-append_left zero (x ∷ xs) ys h = refl
get_or-append_left (suc i) (x ∷ xs) ys h = get_or-append_left i xs ys (omega arith)

-- A frame whose size byte announces all that follows its header is signed by 16 bytes, and the result
-- is verified under the same secret.
pub verify-append_dcp_hmac :
    (mac : Mac) (secret frame : List ℕ)
    → dcp_header_size + get_or frame 5 0 ≡ length frame
    → (length (append_dcp_hmac mac frame secret) ≡ length frame + dcp_hmac_size)
      × (verify_dcp_hmac mac (append_dcp_hmac mac frame secret) secret ≡ true)
verify-append_dcp_hmac mac secret frame whole =
    let tag = take dcp_hmac_size (mac.sum secret frame) in
    let signed = append_dcp_hmac mac frame secret in
    let form : signed ≡ frame ++ tag = unfold append_dcp_hmac in refl in
    let long : length tag ≡ dcp_hmac_size =
      length-take_of_le dcp_hmac_size (mac.sum secret frame)
        (omega (arith, mac.length-sum secret frame)) in
    let total : length signed ≡ length frame + dcp_hmac_size =
      rw form (omega (arith, length-append frame tag, long)) in
    let size : get_or signed 5 0 ≡ get_or frame 5 0 =
      rw form (get_or-append_left 5 frame tag (omega arith)) in
    let body : take (length frame) signed ≡ frame = rw form (take-append frame tag) in
    (total, (verify_dcp_hmac_iff mac secret signed).1 (omega arith, rw (size, whole, body) refl))
