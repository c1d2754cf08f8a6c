-- ===== src/Auth.antt =====
-- internal/auth/token.go: capability tokens, with the daemon's and the sidecar's aliases of it. A token and
-- a capability's name are the lists of their bytes.
-- JSON, base64 and HMAC-SHA256 are libraries: `TokenLib` holds what the code calls.
pub mod Tokens
use devagent.Base.{
  ℕ, ℤ, pos, ◌+ℤ◌, ◌+◌, ◌≡◌, ◌<◌, String, Bool, true, false, Option, none, some, List, [], ◌∷◌,
  ◌++◌, leb, ltb, ltb_ℤ, ◌==◌, text_eq, codes, if◌then◌else◌, Result, ok, err, ◌>>=◌, All, ◌≢◌,
}
use devagent.Protocol.Dcp.{bytes_equal}

-- The expiry is an `int64` of Unix seconds, which may be before 1970.
pub record TokenClaims : Type 0 where
  pub caps : List (List ℕ)
  pub expires_at : ℤ

-- `to_json` is `json.Marshal`, which fails on no claims; `from_json` is `json.Unmarshal`, and reads
-- what was written. The alphabet of base64 has no dot.
pub record TokenLib : Type 0 where
  pub to_json : TokenClaims → List ℕ
  pub from_json : List ℕ → Option TokenClaims
  pub encode64 : List ℕ → List ℕ
  pub decode64 : List ℕ → Option (List ℕ)
  pub sum : List ℕ → List ℕ → List ℕ
  pub from-to_json : (c : TokenClaims) → from_json (to_json c) ≡ some c
  pub decode-encode64 : (bytes : List ℕ) → decode64 (encode64 bytes) ≡ some bytes
  pub dotless : (bytes : List ℕ) → All (λ c. c ≢ b'.') (encode64 bytes)

pub data TokenError : Type 0 where
  invalid_format invalid_signature decode_payload unmarshal_claims token_expired : TokenError

-- `strings.SplitN(token, ".", 2)`: what stands before the first dot, and behind it.
unfoldable pub split_dot : List ℕ → Option (List ℕ × List ℕ)
split_dot [] = none
split_dot (c ∷ cs) =
    let rest = split_dot cs in
    if c == b'.'
    then some ([], cs)
    else elim rest [ none ↦ none | some (before, after) ↦ some (c ∷ before, after) ]

module _ (lib : TokenLib) (secret : List ℕ) where
  open lib use {to_json, from_json, encode64, decode64, sum}

  -- `now` is the Unix second of `time.Now().Add(ttl)`'s reading, and `ttl` is in whole seconds.
  unfoldable pub mint : List (List ℕ) → ℤ → ℤ → List ℕ
  mint caps ttl now =
      let payload = encode64 (to_json (record { caps = caps; expires_at = now +ℤ ttl })) in
      payload ++ b'.' ∷ encode64 (sum secret payload)

  -- The checks on the two parts of a token.
  unfoldable pub verify_parts : List ℕ → List ℕ → ℤ → Result TokenError TokenClaims
  verify_parts payload signature now =
      if bytes_equal signature (encode64 (sum secret payload))
      then elim (decode64 payload) [
        | none ↦ err decode_payload
        | some json ↦ elim (from_json json) [
          | none ↦ err unmarshal_claims
          | some claims ↦ if ltb_ℤ claims.expires_at now then err token_expired else ok claims
        ]
      ]
      else err invalid_signature

  unfoldable pub verify : List ℕ → ℤ → Result TokenError TokenClaims
  unfolding split_dot verify_parts
  verify token now = elim (split_dot token) [
    | none ↦ err invalid_format
    | some (payload, signature) ↦ verify_parts payload signature now
  ]

-- The loop of `CheckCap`.
unfoldable pub has_cap : List (List ℕ) → List ℕ → Bool
unfolding text_eq
has_cap [] capability = false
has_cap (c ∷ cs) capability =
    if text_eq c capability
    then true
    else if text_eq c (codes "*")
    then true
    else has_cap cs capability

unfoldable pub check_cap : TokenClaims → List ℕ → Bool
unfolding has_cap
check_cap claims capability = has_cap claims.caps capability
