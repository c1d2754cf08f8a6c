-- ===== src/Auth/Tokens.antt =====
-- Who gets past `Verify` and `CheckCap`.
use devagent.Base.{
  ℕ, ℤ, ◌+ℤ◌, ◌≤ℤ◌, ◌≡◌, ◌≢◌, ◌↔◌, ◌⊎◌, inl, inr, refl, ap, ◌∙◌, true, some, List, [], ◌∷◌, ◌++◌,
  arith, ltb_ℤ, ==_iff, text_eq→eq, text_eq_refl, codes, if◌then◌else◌, ok, err, All, In,
  Option-cases,
}
use devagent.Protocol.Dcp.Trailer.{bytes_equal→eq, bytes_equal_refl}
use devagent.Auth.{
  TokenClaims, TokenLib, token_expired, split_dot, mint, verify_parts, verify, has_cap, check_cap,
}

split_dot-append :
    (before after : List ℕ)
    → All (λ c. c ≢ b'.') before
    → split_dot (before ++ b'.' ∷ after) ≡ some (before, after)
unfolding split_dot
split_dot-append [] after h = refl
split_dot-append (c ∷ before) after h = ground (arith, split_dot-append before after h.1, h.0)

split_dot→append :
    (token before after : List ℕ)
    → split_dot token ≡ some (before, after)
    → token ≡ before ++ b'.' ∷ after
unfolding split_dot
split_dot→append [] before after h = cc
split_dot→append (c ∷ cs) [] after h = ground (arith, ==_iff c b'.')
split_dot→append (c ∷ cs) (x ∷ before) after h =
    ground (arith, ==_iff c b'.', split_dot→append cs before after)

module _ (lib : TokenLib) (secret : List ℕ) where
  open lib use {to_json, from_json, encode64, decode64, sum, from-to_json, decode-encode64, dotless}

  -- A minted token verifies under the same secret, to the capabilities that it was minted for, up to
  -- its expiry and that second included, and is refused as expired from the next second on.
  pub verify-mint :
      (caps : List (List ℕ)) (ttl now later : ℤ)
      → verify lib secret (mint lib secret caps ttl now) later ≡ (
          if ltb_ℤ (now +ℤ ttl) later
          then err token_expired
          else ok (record { caps = caps; expires_at = now +ℤ ttl }))
  unfolding verify mint
  verify-mint caps ttl now later =
      let claims : TokenClaims = record { caps = caps; expires_at = now +ℤ ttl } in
      let payload = encode64 (to_json claims) in
      rw
        (
          verify,
          mint,
          split_dot-append payload (encode64 (sum secret payload)) (dotless (to_json claims)),
          verify_parts,
          bytes_equal_refl (encode64 (sum secret payload)),
          decode-encode64 (to_json claims),
          from-to_json claims,
        )
        refl

  verify_parts-eq-ok :
      (payload signature : List ℕ) (now : ℤ) (claims : TokenClaims)
      → verify_parts lib secret payload signature now ≡ ok claims
      → (signature ≡ encode64 (sum secret payload))
        × ((json : List ℕ) × (decode64 payload ≡ some json) × (from_json json ≡ some claims))
        × (now ≤ℤ claims.expires_at)
  unfolding verify_parts
  verify_parts-eq-ok payload signature now claims h = elim (Option-cases (decode64 payload)) [
    | inl broken ↦ ground arith
    | inr (json, decoded) ↦ (
      ground (arith, bytes_equal→eq signature (encode64 (sum secret payload))),
      (json, decoded, ground arith),
      ground arith,
    )
  ]

  -- A token that verifies is a text with, behind its first dot, the signature of what stands before it
  -- under the secret; what stands before it decodes to the claims that are returned; and these have not
  -- expired.
  pub verify-eq-ok :
      (token : List ℕ) (now : ℤ) (claims : TokenClaims)
      → verify lib secret token now ≡ ok claims
      → (payload json : List ℕ) × (token ≡ payload ++ b'.' ∷ encode64 (sum secret payload))
        × (decode64 payload ≡ some json)
        × (from_json json ≡ some claims)
        × (now ≤ℤ claims.expires_at)
  unfolding verify
  verify-eq-ok token now claims h = elim (Option-cases (split_dot token)) [
    | inl whole ↦ ground arith
    | inr ((payload, signature), cut) ↦
        let parts : verify_parts lib secret payload signature now ≡ ok claims = ground arith in
        let (signed, (json, decoded, parsed), fresh) =
          verify_parts-eq-ok payload signature now claims parts in
        (
          payload,
          json,
          split_dot→append token payload signature cut ∙ ap (λ t. payload ++ b'.' ∷ t) signed,
          decoded,
          parsed,
          fresh,
        )
  ]

In-has_cap :
    (caps : List (List ℕ)) (c : List ℕ) → has_cap caps c ≡ true → In c caps ⊎ In (codes "*") caps
unfolding has_cap
In-has_cap [] c h = cc
In-has_cap (x ∷ caps) c h =
    ground (arith, text_eq→eq x c, text_eq→eq x (codes "*"), In-has_cap caps c)

has_cap-In :
    (caps : List (List ℕ)) (c w : List ℕ)
    → (w ≡ c) ⊎ (w ≡ codes "*")
    → In w caps
    → has_cap caps c ≡ true
unfolding has_cap
has_cap-In [] c w h m = absurd m
has_cap-In (x ∷ caps) c w h m = ground (arith, text_eq_refl x, has_cap-In caps c w h)

-- `CheckCap` grants a capability exactly if the token lists it word for word, or lists "*". A
-- device-wide "shelf_01.*" in the token grants nothing but the capability of that very name.
pub check_cap_iff :
    (claims : TokenClaims) (c : List ℕ)
    → (check_cap claims c ≡ true) ↔ (In c claims.caps ⊎ In (codes "*") claims.caps)
unfolding check_cap
check_cap_iff claims c = (
  In-has_cap claims.caps c,
  elim [
    | inl m ↦ has_cap-In claims.caps c c (inl refl) m
    | inr m ↦ has_cap-In claims.caps c (codes "*") (inr refl) m
  ],
)
