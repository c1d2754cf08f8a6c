-- ===== src/Protocol/Bytes.antt =====
-- Bytes as numbers below 256, and the facts about `^` on them that the frame proofs need, checked
-- on all pairs.
use Prim.Native.Nat.{bit_xor}
use devagent.Base.{
  ℕ, zero, suc, ◌<◌, ◌≡◌, refl, Bool, true, ◌&&◌, List, [], ◌∷◌, ◌++◌, arith, ltb, ◌==◌, ==_iff,
  All, if◌then◌else◌, false,
}

abbrev pub IsByte : ℕ → Type 0
IsByte x = x < 256

-- The test passes at every number under the bound.
unfoldable pub passes_under : (ℕ → Bool) → ℕ → Bool
passes_under test zero = true
passes_under test (suc bound) = if test bound then passes_under test bound else false

pub passes_under→true :
    (test : ℕ → Bool) (bound number : ℕ)
    → number < bound
    → passes_under test bound ≡ true
    → test number ≡ true
unfolding passes_under
passes_under→true test zero number under passed = absurd (omega arith)
passes_under→true test (suc bound) number under passed =
    ground (arith, passes_under→true test bound number)

-- `x ^ y` is a byte, undoes itself on either side, and vanishes at equal bytes.
xor_ok : ℕ → ℕ → Bool
xor_ok x y =
    ltb (bit_xor x y) 256 && (bit_xor (bit_xor x y) y == x) && (bit_xor x (bit_xor x y) == y)

xor_table : passes_under (λ x. passes_under (xor_ok x) 256) 256 ≡ true
unfolding passes_under xor_ok
xor_table = refl

pub record XorLaws (x y : ℕ) : Type 0 where
  pub byte : bit_xor x y < 256
  pub cancel_right : bit_xor (bit_xor x y) y ≡ x
  pub cancel_left : bit_xor x (bit_xor x y) ≡ y

pub xor_laws : (x y : ℕ) → x < 256 → y < 256 → XorLaws x y
unfolding xor_ok
xor_laws x y hx hy =
    let row = passes_under→true (λ a. passes_under (xor_ok a) 256) 256 x hx xor_table in
    let cell : xor_ok x y ≡ true = passes_under→true (xor_ok x) 256 y hy row in
    record { byte = ground arith; cancel_right = ground arith; cancel_left = ground arith }

self_table : passes_under (λ x. bit_xor x x == 0) 256 ≡ true
unfolding passes_under
self_table = refl

pub xor_self : (x : ℕ) → x < 256 → bit_xor x x ≡ 0
xor_self x h = (==_iff _ 0).0 (passes_under→true (λ y. bit_xor y y == 0) 256 x h self_table)

pub All-append {ℓ} :
    (Holds : ℕ → Type ℓ) (left right : List ℕ)
    → All Holds left
    → All Holds right
    → All Holds (left ++ right)
All-append Holds [] right none_left all_right = all_right
All-append Holds (first ∷ left) right (at_first, all_left) all_right =
    (at_first, All-append Holds left right all_left all_right)
