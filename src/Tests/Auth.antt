-- ===== src/Tests/Auth.antt =====
-- internal/auth/token.go's tests, and instances of the theorems on tokens.
use devagent.Base.{
  ℕ, ◌≡◌, refl, pos, ◌+ℤ◌, ◌≤ℤ◌, true, some, List, [], ◌∷◌, ◌++◌, ok, err, ◌↔◌, ◌⊎◌, In, codes,
}
use devagent.Tests.Libraries.{toy, toy_encode, toy_decode, toy_from_json}
use devagent.Auth.{
  TokenClaims, token_expired, invalid_signature, mint, verify, split_dot, verify_parts, check_cap,
}
use devagent.Auth.Tokens.{verify-eq-ok, check_cap_iff}
use devagent.Protocol.Dcp.{bytes_equal}

abbrev granted : TokenClaims
granted = record { caps = codes "shelf_01.set_led" ∷ []; expires_at = pos 1300 }

abbrev key : List ℕ
key = 7 ∷ 9 ∷ []

abbrev token : List ℕ
unfolding mint
token = mint toy key (codes "shelf_01.set_led" ∷ []) (pos 300) (pos 1000)

token_expires : verify toy key token (pos 1301) ≡ err token_expired
unfolding verify mint split_dot verify_parts bytes_equal token ◌+ℤ◌
token_expires = refl

token_verifies : verify toy key token (pos 1300) ≡ ok granted
unfolding verify mint split_dot verify_parts bytes_equal token ◌+ℤ◌
token_verifies = refl

other_key_fails : verify toy (8 ∷ []) token (pos 1300) ≡ err invalid_signature
unfolding verify mint split_dot verify_parts bytes_equal token ◌+ℤ◌
other_key_fails = refl

verify-eq-ok_example :
    (payload json : List ℕ) × (token ≡ payload ++ b'.' ∷ toy_encode (key ++ payload))
    × (some (toy_decode payload) ≡ some json)
    × (toy_from_json json ≡ some granted)
    × (pos 1300 ≤ℤ pos 1300)
verify-eq-ok_example = verify-eq-ok toy key token (pos 1300) granted token_verifies

check_cap_iff_example :
    (check_cap granted (codes "shelf_01.*") ≡ true)
    ↔ (In (codes "shelf_01.*") granted.caps ⊎ In (codes "*") granted.caps)
check_cap_iff_example = check_cap_iff granted (codes "shelf_01.*")
