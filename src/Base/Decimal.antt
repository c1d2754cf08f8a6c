-- ===== src/Base/Decimal.antt =====
-- The decimal form of a number: its characters, and that the fuel of `digits_of` is enough.
use Prim.Native.Nat.{ℕ, zero, suc, ◌+◌, ◌-◌, ◌*◌, ◌/◌, ◌%◌, ◌≤◌, ◌<◌}
use mathlib.Core.Path.{◌≡◌, refl, ap, ◌∙◌}
use mathlib.Core.Logic.{inl, inr}
use mathlib.Core.List.{List, [], ◌∷◌}
use native.Mathlib.Omega.{arith}
use devagent.Base.Tests.{ltb, Bool-cases}
use devagent.Base.Lists.{All, length}
use devagent.Base.Int.{ℤ, pos, negsuc}
use devagent.Base.Text.{digits_of, decimal}

-- A digit or a minus sign.
abbrev pub IsNumeric : ℕ → Type 0
IsNumeric c = (45 ≤ c) × (c ≤ 57)

digits_of-IsNumeric :
    (fuel n : ℕ) (rest : List ℕ) → All IsNumeric rest → All IsNumeric (digits_of fuel n rest)
unfolding digits_of
digits_of-IsNumeric zero n rest numeric = numeric
digits_of-IsNumeric (suc fuel) n rest numeric = elim (Bool-cases (ltb n 10)) [
  | inl small ↦ rw (small) ((ground arith, ground arith), numeric)
  | inr big ↦ rw (big) (
      digits_of-IsNumeric fuel (n / 10) ((b'0' + n % 10) ∷ rest)
        ((omega arith, omega arith), numeric))
]

pub decimal-IsNumeric : (n : ℤ) → All IsNumeric (decimal n)
unfolding decimal
decimal-IsNumeric (pos n) = digits_of-IsNumeric (suc n) n [] tt
decimal-IsNumeric (negsuc n) =
    ((omega arith, omega arith), digits_of-IsNumeric (suc (suc n)) (suc n) [] tt)

length-digits_of : (fuel n : ℕ) (rest : List ℕ) → length rest ≤ length (digits_of fuel n rest)
unfolding digits_of
length-digits_of zero n rest = omega arith
length-digits_of (suc fuel) n rest = elim (Bool-cases (ltb n 10)) [
  | inl small ↦ rw (small) (omega arith)
  | inr big ↦ rw (big) (omega (arith, length-digits_of fuel (n / 10) ((b'0' + n % 10) ∷ rest)))
]

pub length-decimal : (n : ℤ) → 1 ≤ length (decimal n)
unfolding decimal digits_of
length-decimal (negsuc n) = omega arith
length-decimal (pos n) = elim (Bool-cases (ltb n 10)) [
  | inl small ↦ rw (small) (omega arith)
  | inr big ↦ rw (big) (omega (arith, length-digits_of n (n / 10) ((b'0' + n % 10) ∷ [])))
]

list-cons : (text : List ℕ) → 1 ≤ length text → (c : ℕ) × ((cs : List ℕ) × (text ≡ c ∷ cs))
list-cons [] long = absurd (omega arith)
list-cons (c ∷ cs) long = (c, (cs, refl))

pub decimal-cons : (n : ℤ) → (c : ℕ) × ((cs : List ℕ) × (decimal n ≡ c ∷ cs))
decimal-cons n = list-cons (decimal n) (length-decimal n)

-- `strconv.Atoi` on texts of digits.
abbrev pub read_digits : ℕ → List ℕ → ℕ
read_digits value [] = value
read_digits value (c ∷ cs) = read_digits (value * 10 + (c - b'0')) cs

read_digits-digits_of :
    (fuel n : ℕ) (rest : List ℕ)
    → n < fuel
    → read_digits 0 (digits_of fuel n rest) ≡ read_digits n rest
unfolding digits_of
read_digits-digits_of zero n rest h = absurd (omega arith)
read_digits-digits_of (suc fuel) n rest h = elim (Bool-cases (ltb n 10)) [
  | inl last ↦
      let value : 0 + (b'0' + n - b'0') ≡ n = omega arith in
      rw (digits_of, last) (ap (λ v. read_digits v rest) value)
  | inr more ↦
      let value : n / 10 * 10 + (b'0' + n % 10 - b'0') ≡ n = omega arith in
      rw (digits_of, more)
        (read_digits-digits_of fuel (n / 10) ((b'0' + n % 10) ∷ rest) (ground arith)
          ∙ ap (λ v. read_digits v rest) value)
]

-- The fuel of `decimal` is enough: the number is read back.
pub read_digits-decimal : (n : ℕ) → read_digits 0 (decimal (pos n)) ≡ n
unfolding decimal
read_digits-decimal n = read_digits-digits_of (suc n) n [] (omega arith)
