-- ===== src/Mcptool/Values.antt =====
-- Which numbers the options of a parameter take, and what the cut of a fraction does to a bound.
use native.Mathlib.Decide.{ℕ_discrete}
use devagent.Base.{
  ℤ, pos, negsuc, leb_ℤ, ◌≤ℤ◌, ◌≡◌, ◌≢◌, ◌⊎◌, inl, inr, refl, ap, ◌∙◌, String, Bool, true, false,
  ◌&&◌, Option, none, some, List, [], ◌∷◌, ◌++◌, map, arith, if◌then◌else◌,
}
use devagent.Model.Capability.{PropertySchema}
use devagent.Mcptool.{
  ParameterKind, integer, string, boolean, number, PropertyOption, enum_option, minimum, maximum,
  required, of_int, truncated, enum_options, minimum_options, maximum_options, required_options,
  bounded_options,
}

abbrev pub type_name_of : ParameterKind → String
type_name_of integer = "integer"
type_name_of string = "string"
type_name_of boolean = "boolean"
type_name_of number = "number"

abbrev pub eq_ℤ : ℤ → ℤ → Bool
eq_ℤ a b = leb_ℤ a b && leb_ℤ b a

abbrev pub member : List ℤ → ℤ → Bool
member [] v = false
member (w ∷ ws) v = if eq_ℤ w v then true else member ws v

-- How JSON Schema reads the options of a number: it has to meet each of them.
abbrev pub takes : List PropertyOption → ℤ → Bool
takes [] v = true
takes (enum_option vs ∷ options) v = member vs v && takes options v
takes (minimum bound ∷ options) v = leb_ℤ bound v && takes options v
takes (maximum bound ∷ options) v = leb_ℤ v bound && takes options v
takes (required ∷ options) v = takes options v

-- Whether an argument has to be given.
abbrev pub demands : List PropertyOption → Bool
demands [] = false
demands (required ∷ options) = true
demands (option ∷ options) = demands options

abbrev pub in_enum : List ℤ → ℤ → Bool
in_enum [] v = true
in_enum (w ∷ ws) v = member (map of_int (w ∷ ws)) v

abbrev pub above : Option ℤ → ℤ → Bool
above none v = true
above (some bound) v = leb_ℤ bound v

abbrev pub below : Option ℤ → ℤ → Bool
below none v = true
below (some bound) v = leb_ℤ v bound

-- What the property itself says of a number.
abbrev pub permitted : ParameterKind → PropertySchema → ℤ → Bool
permitted integer prop v =
    in_enum prop.enum_values v && (above prop.min_value v && below prop.max_value v)
permitted number prop v =
    in_enum prop.enum_values v && (above prop.min_value v && below prop.max_value v)
permitted _ prop v = true

abbrev pub LowFits : Option ℤ → Type 0
LowFits none = Unit
LowFits (some bound) = (bound ≤ℤ pos 0) ⊎ (truncated bound ≡ bound)

abbrev pub HighFits : Option ℤ → Type 0
HighFits none = Unit
HighFits (some bound) = (pos 0 ≤ℤ bound) ⊎ (truncated bound ≡ bound)

-- The other bounds: a lower bound above zero, or an upper bound below zero, that is not whole.
abbrev pub LowLossy : Option ℤ → Type 0
LowLossy none = ⊥
LowLossy (some bound) = (pos 0 ≤ℤ bound) × (truncated bound ≢ bound)

abbrev pub HighLossy : Option ℤ → Type 0
HighLossy none = ⊥
HighLossy (some bound) = (bound ≤ℤ pos 0) × (truncated bound ≢ bound)

abbrev pub Lossy : ParameterKind → PropertySchema → Type 0
Lossy integer prop = LowLossy prop.min_value ⊎ HighLossy prop.max_value
Lossy _ prop = ⊥

abbrev pub converted : (ℤ → ℤ) → Option ℤ → Option ℤ
converted convert none = none
converted convert (some b) = some (convert b)

-- The property with the bounds that the schema has: an integer's without their fraction.
abbrev pub cut : ParameterKind → PropertySchema → PropertySchema
cut integer prop = record prop {
  min_value = converted truncated prop.min_value;
  max_value = converted truncated prop.max_value;
}
cut _ prop = prop

equal_or_not : (a b : ℤ) → (a ≡ b) ⊎ (a ≢ b)
equal_or_not (pos m) (pos n) = elim (ℕ_discrete m n) [
  | yes same ↦ inl (ap pos same)
  | no differ ↦ inr (λ e. differ (cc))
]
equal_or_not (negsuc m) (negsuc n) = elim (ℕ_discrete m n) [
  | yes same ↦ inl (ap negsuc same)
  | no differ ↦ inr (λ e. differ (cc))
]
equal_or_not (pos m) (negsuc n) = inr (λ e. absurd cc)
equal_or_not (negsuc m) (pos n) = inr (λ e. absurd cc)

LowFits-cases : (bound : Option ℤ) → LowFits bound ⊎ LowLossy bound
unfolding truncated
LowFits-cases none = inl tt
LowFits-cases (some (negsuc n)) = inl (inl (omega arith))
LowFits-cases (some (pos n)) = elim (equal_or_not (truncated (pos n)) (pos n)) [
  | inl whole ↦ inl (inr whole)
  | inr differs ↦ inr (omega arith, differs)
]

HighFits-cases : (bound : Option ℤ) → HighFits bound ⊎ HighLossy bound
unfolding truncated
HighFits-cases none = inl tt
HighFits-cases (some (pos n)) = inl (inl (omega arith))
HighFits-cases (some (negsuc n)) = elim (equal_or_not (truncated (negsuc n)) (negsuc n)) [
  | inl whole ↦ inl (inr whole)
  | inr differs ↦ inr (omega arith, differs)
]

truncated-low :
    (bound k : ℤ) → bound ≤ℤ pos 0 → leb_ℤ (truncated bound) (of_int k) ≡ leb_ℤ bound (of_int k)
unfolding truncated of_int
truncated-low (pos b) (pos k) h = ground arith
truncated-low (pos b) (negsuc k) h = ground arith
truncated-low (negsuc b) (pos k) h = ground arith
truncated-low (negsuc b) (negsuc k) h = ground arith

truncated-high :
    (bound k : ℤ) → pos 0 ≤ℤ bound → leb_ℤ (of_int k) (truncated bound) ≡ leb_ℤ (of_int k) bound
unfolding truncated of_int
truncated-high (pos b) (pos k) h = ground arith
truncated-high (pos b) (negsuc k) h = ground arith
truncated-high (negsuc b) (pos k) h = ground arith
truncated-high (negsuc b) (negsuc k) h = ground arith

takes-append :
    (xs ys : List PropertyOption) (v : ℤ) → takes (xs ++ ys) v ≡ (takes xs v && takes ys v)
takes-append [] ys v = refl
takes-append (enum_option vs ∷ xs) ys v = ground (arith, takes-append xs ys v)
takes-append (minimum bound ∷ xs) ys v = ground (arith, takes-append xs ys v)
takes-append (maximum bound ∷ xs) ys v = ground (arith, takes-append xs ys v)
takes-append (required ∷ xs) ys v = takes-append xs ys v

takes-enum : (vs : List ℤ) (v : ℤ) → takes (enum_options vs) v ≡ in_enum vs v
unfolding enum_options
takes-enum [] v = refl
takes-enum (w ∷ ws) v = ground arith

pub takes-required :
    (name : String) (names : List String) (v : ℤ) → takes (required_options name names) v ≡ true
unfolding required_options
takes-required name names v = ground arith

takes-minimum :
    (convert : ℤ → ℤ) (bound : Option ℤ) (v : ℤ)
    → takes (minimum_options convert bound) v ≡ above (converted convert bound) v
unfolding minimum_options
takes-minimum convert none v = refl
takes-minimum convert (some b) v = ground arith

takes-maximum :
    (convert : ℤ → ℤ) (bound : Option ℤ) (v : ℤ)
    → takes (maximum_options convert bound) v ≡ below (converted convert bound) v
unfolding maximum_options
takes-maximum convert none v = refl
takes-maximum convert (some b) v = ground arith

pub takes-bounded :
    (convert : ℤ → ℤ) (name : String) (prop : PropertySchema) (names : List String) (v : ℤ)
    → takes (bounded_options convert name prop names) v ≡ (
        in_enum prop.enum_values v
        && (above (converted convert prop.min_value) v
            && below (converted convert prop.max_value) v))
unfolding bounded_options
takes-bounded convert name prop names v =
    let highs = maximum_options convert prop.max_value in
    let demanded = required_options name names in
    takes-append (enum_options prop.enum_values)
      (minimum_options convert prop.min_value ++ (highs ++ demanded)) v
    ∙ ground (
      arith,
      takes-append (minimum_options convert prop.min_value) (highs ++ demanded) v,
      takes-append highs demanded v,
      takes-enum prop.enum_values v,
      takes-minimum convert prop.min_value v,
      takes-maximum convert prop.max_value v,
      takes-required name names v,
    )

above-converted :
    (bound : Option ℤ) (k : ℤ)
    → LowFits bound
    → above (converted truncated bound) (of_int k) ≡ above bound (of_int k)
above-converted none k h = refl
above-converted (some b) k (inl below_zero) = truncated-low b k below_zero
above-converted (some b) k (inr whole) = ap (λ c. leb_ℤ c (of_int k)) whole

below-converted :
    (bound : Option ℤ) (k : ℤ)
    → HighFits bound
    → below (converted truncated bound) (of_int k) ≡ below bound (of_int k)
below-converted none k h = refl
below-converted (some b) k (inl above_zero) = truncated-high b k above_zero
below-converted (some b) k (inr whole) = ap (λ c. leb_ℤ (of_int k) c) whole

pub same_bound : (bound : Option ℤ) → converted (λ x. x) bound ≡ bound
same_bound none = refl
same_bound (some b) = refl

-- Where no bound is lossy, an integer meets the bounds without their fraction exactly if it meets them.
pub permitted-cut :
    (kind : ParameterKind) (prop : PropertySchema) (k : ℤ)
    → (permitted kind (cut kind prop) (of_int k) ≡ permitted kind prop (of_int k)) ⊎ Lossy kind prop
permitted-cut string prop k = inl refl
permitted-cut boolean prop k = inl refl
permitted-cut number prop k = inl refl
permitted-cut integer prop k = elim (LowFits-cases prop.min_value) [
  | inr lossy ↦ inr (inl lossy)
  | inl low ↦ elim (HighFits-cases prop.max_value) [
    | inr lossy ↦ inr (inr lossy)
    | inl high ↦
        inl (rw (above-converted prop.min_value k low, below-converted prop.max_value k high) refl)
  ]
]
