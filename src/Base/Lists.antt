-- ===== src/Base/Lists.antt =====
-- Lists measured and cut by native numbers, under the library's names, and predicates by recursion.
use Prim.Native.Nat.{ℕ, zero, suc, ◌+◌, ◌-◌, ◌≤◌}
use Prim.Native.String.{String}
use mathlib.Core.Path.{◌≡◌, refl, ap, sym, ◌∙◌}
use mathlib.Core.Logic.{◌⊎◌, inl, inr}
use mathlib.Core.Bool.{Bool, true, false}
use mathlib.Core.List.{List, [], ◌∷◌, ◌++◌}
use native.Mathlib.Omega.{arith}
use text.Mathlib.Text.{◌==◌ as str_eq}
use text.Mathlib.TextEquality.{eq_iff}
use devagent.Base.Tests.{if◌then◌else◌}

module _ {ℓ} {A : Type ℓ} where
  abbrev pub length : List A → ℕ
  length [] = 0
  length (x ∷ xs) = suc (length xs)

  abbrev pub take : ℕ → List A → List A
  take zero xs = []
  take (suc n) [] = []
  take (suc n) (x ∷ xs) = x ∷ take n xs

  abbrev pub drop : ℕ → List A → List A
  drop zero xs = xs
  drop (suc n) [] = []
  drop (suc n) (x ∷ xs) = drop n xs

  abbrev pub get_or : List A → ℕ → A → A
  get_or [] i d = d
  get_or (x ∷ xs) zero d = x
  get_or (x ∷ xs) (suc i) d = get_or xs i d

  abbrev pub replicate : ℕ → A → List A
  replicate zero a = []
  replicate (suc n) a = a ∷ replicate n a

  pub length-append : (xs ys : List A) → length (xs ++ ys) ≡ length xs + length ys
  length-append [] ys = omega arith
  length-append (x ∷ xs) ys = omega (arith, length-append xs ys)

  pub take-append : (xs ys : List A) → take (length xs) (xs ++ ys) ≡ xs
  take-append [] ys = refl
  take-append (x ∷ xs) ys = ap (◌∷◌ x) (take-append xs ys)

  pub drop-append : (xs ys : List A) → drop (length xs) (xs ++ ys) ≡ ys
  drop-append [] ys = refl
  drop-append (x ∷ xs) ys = drop-append xs ys

  pub take-append-drop : (n : ℕ) (xs : List A) → take n xs ++ drop n xs ≡ xs
  take-append-drop zero xs = refl
  take-append-drop (suc n) [] = refl
  take-append-drop (suc n) (x ∷ xs) = ap (◌∷◌ x) (take-append-drop n xs)

  pub length-drop : (n : ℕ) (xs : List A) → length (drop n xs) ≡ length xs - n
  length-drop zero xs = omega arith
  length-drop (suc n) [] = omega arith
  length-drop (suc n) (x ∷ xs) = omega (arith, length-drop n xs)

  pub append_cancel_left : (xs ys zs : List A) → xs ++ ys ≡ xs ++ zs → ys ≡ zs
  append_cancel_left xs ys zs e =
      sym (drop-append xs ys) ∙ ap (drop (length xs)) e ∙ drop-append xs zs

  pub length-take_of_le : (n : ℕ) (xs : List A) → n ≤ length xs → length (take n xs) ≡ n
  length-take_of_le zero xs h = refl
  length-take_of_le (suc n) [] h = absurd (omega arith)
  length-take_of_le (suc n) (x ∷ xs) h = ap suc (length-take_of_le n xs (omega arith))

-- Every element satisfies the predicate; some element does.
abbrev pub All {ℓ κ} : {A : Type ℓ} → (A → Type κ) → List A → Type κ
All P [] = Unit
All P (x ∷ xs) = P x × All P xs

-- Membership of a text, by recursion: it computes, and tells where the text stands.
abbrev pub In : {A : Type 0} → A → List A → Type 0
In s [] = ⊥
In s (x ∷ xs) = (x ≡ s) ⊎ In s xs

-- `for _, v := range list { if v == s { return true } }; return false`.
unfoldable pub contains : List String → String → Bool
contains [] s = false
contains (v ∷ vs) s = if str_eq v s then true else contains vs s

pub contains→In : (l : List String) (s : String) → contains l s ≡ true → In s l
unfolding contains
contains→In [] s h = absurd (ground arith)
contains→In (v ∷ vs) s h = ground (arith, eq_iff v s, contains→In vs s)

pub In→contains : (l : List String) (s : String) → In s l → contains l s ≡ true
unfolding contains
In→contains [] s m = absurd m
In→contains (v ∷ vs) s m = ground (arith, eq_iff v s, In→contains vs s)

pub In-append_left : (s : String) (xs ys : List String) → In s xs → In s (xs ++ ys)
In-append_left s [] ys m = absurd m
In-append_left s (x ∷ xs) ys (inl e) = inl e
In-append_left s (x ∷ xs) ys (inr m) = inr (In-append_left s xs ys m)

pub In-append_right : (s : String) (xs ys : List String) → In s ys → In s (xs ++ ys)
In-append_right s [] ys m = m
In-append_right s (x ∷ xs) ys m = inr (In-append_right s xs ys m)

-- What the first list leaves of a cut of two.
module _ {ℓ} {A : Type ℓ} where
  pub take-append_short :
      (n : ℕ) (xs ys : List A) → length xs ≤ n → take n (xs ++ ys) ≡ xs ++ take (n - length xs) ys
  take-append_short n [] ys h = let all_left : n - 0 ≡ n = omega arith in rw (all_left) refl
  take-append_short zero (x ∷ xs) ys h = absurd (omega arith)
  take-append_short (suc n) (x ∷ xs) ys h =
      let one_less : suc n - suc (length xs) ≡ n - length xs = omega arith in
      rw (one_less) (ap (◌∷◌ x) (take-append_short n xs ys (omega arith)))

  pub drop-append_short :
      (n : ℕ) (xs ys : List A) → length xs ≤ n → drop n (xs ++ ys) ≡ drop (n - length xs) ys
  drop-append_short n [] ys h = let all_left : n - 0 ≡ n = omega arith in rw (all_left) refl
  drop-append_short zero (x ∷ xs) ys h = absurd (omega arith)
  drop-append_short (suc n) (x ∷ xs) ys h =
      let one_less : suc n - suc (length xs) ≡ n - length xs = omega arith in
      rw (one_less) (drop-append_short n xs ys (omega arith))

  pub take-append_long : (n : ℕ) (xs ys : List A) → n ≤ length xs → take n (xs ++ ys) ≡ take n xs
  take-append_long zero xs ys h = refl
  take-append_long (suc n) [] ys h = absurd (omega arith)
  take-append_long (suc n) (x ∷ xs) ys h = ap (◌∷◌ x) (take-append_long n xs ys (omega arith))

  pub drop-append_long :
      (n : ℕ) (xs ys : List A) → n ≤ length xs → drop n (xs ++ ys) ≡ drop n xs ++ ys
  drop-append_long zero xs ys h = refl
  drop-append_long (suc n) [] ys h = absurd (omega arith)
  drop-append_long (suc n) (x ∷ xs) ys h = drop-append_long n xs ys (omega arith)

pub In-append_cases : (s : String) (xs ys : List String) → In s (xs ++ ys) → In s xs ⊎ In s ys
In-append_cases s [] ys m = inr m
In-append_cases s (x ∷ xs) ys (inl same) = inl (inl same)
In-append_cases s (x ∷ xs) ys (inr m) = elim (In-append_cases s xs ys m) [
  | inl n ↦ inl (inr n)
  | inr n ↦ inr n
]

pub All-map {ℓ κ} :
    {A : Type 0} {P : A → Type ℓ} {Q : A → Type κ} (xs : List A)
    → ((x : A) → P x → Q x)
    → All P xs
    → All Q xs
All-map [] weaken all = tt
All-map (x ∷ xs) weaken (own, all) = (weaken x own, All-map xs weaken all)

-- What holds of each member holds of all elements.
pub In-All {ℓ} : {A : Type 0} {P : A → Type ℓ} (xs : List A) → ((x : A) → In x xs → P x) → All P xs
In-All [] each = tt
In-All (x ∷ xs) each = (each x (inl refl), In-All xs (λ y m. each y (inr m)))
