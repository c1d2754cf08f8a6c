-- ===== src/Sidecar/Forward/Handshake.antt =====
-- The sidecar's token at the daemon.
use devagent.Base.{
  ℕ, ◌≡◌, inl, inr, refl, sym, ◌∙◌, ℤ, ◌+ℤ◌, ◌≤ℤ◌, ltb_ℤ, true, false, none, some, List, [], ◌∷◌,
  ◌++◌, arith, ok, codes, has_prefix,
}
use devagent.Auth.{TokenClaims, mint, verify, check_cap}
use devagent.Auth.Tokens.{verify-mint, check_cap_iff}
use devagent.Daemon.Invoke.{Platform, InvokeMessage}
use devagent.Daemon.Invoke.Http.{trim_bearer, check_token}
use devagent.Daemon.Invoke.Http.Queries.{authorized}
use devagent.Daemon.Invoke.Http.Access.{capability_name}
use devagent.Sidecar.Forward.{token_ttl, auth_header}

trim_bearer-append : (token : List ℕ) → trim_bearer (codes "Bearer " ++ token) ≡ token
unfolding trim_bearer has_prefix
trim_bearer-append token = refl

module _ (platform : Platform) (secret : List ℕ) where
  open platform use {token_lib}

  accepted :
      (token header : List ℕ) (now : ℤ) (claims : TokenClaims)
      → trim_bearer header ≡ token
      → verify token_lib secret token now ≡ ok claims
      → (authorized platform (some secret) header now ≡ true)
        × ((msg : InvokeMessage)
            → check_cap claims (capability_name platform msg) ≡ true
            → check_token platform (some secret) header now msg ≡ none)
  unfolding authorized check_token verify
  accepted [] header now claims cut verified = absurd (ground arith)
  accepted (c ∷ cs) header now claims cut verified = (
    rw (authorized, cut, verified) refl,
    λ msg covered. rw (check_token, cut, verified, covered) refl,
  )

  -- A request that the sidecar sends with the daemon's secret passes the daemon's token checks, for
  -- every message and for the list of devices, from any second on up to the one in which its token
  -- expires: `ttl` seconds after the minting, or 300 where the configured time is not positive.
  pub auth_header-check_token :
      (ttl now later : ℤ) (header : List ℕ)
      → auth_header token_lib (some secret) ttl now ≡ some header
      → later ≤ℤ (now +ℤ token_ttl ttl)
      → (authorized platform (some secret) header later ≡ true)
        × ((msg : InvokeMessage) → check_token platform (some secret) header later msg ≡ none)
  unfolding auth_header
  auth_header-check_token ttl now later header sent fresh =
      let token = mint token_lib secret (codes "*" ∷ []) (token_ttl ttl) now in
      let claims : TokenClaims = record {
        caps = codes "*" ∷ [];
        expires_at = now +ℤ token_ttl ttl;
      } in
      let same : codes "Bearer " ++ token ≡ header = ground arith in
      let unexpired : ltb_ℤ (now +ℤ token_ttl ttl) later ≡ false = ground arith in
      let verified : verify token_lib secret token later ≡ ok claims =
        verify-mint token_lib secret (codes "*" ∷ []) (token_ttl ttl) now later
        ∙ rw (unexpired) refl in
      let cut : trim_bearer header ≡ token = rw (sym same) (trim_bearer-append token) in
      let (listed, granted) = accepted token header later claims cut verified in
      (
        listed,
        λ msg.
            granted msg ((check_cap_iff claims (capability_name platform msg)).1 (inr (inl refl))),
      )
