-- ===== src/Base/Maps.antt =====
-- A Go `map[string]V` as an association list. The laws of `lookup` have no side condition; `IsMap`
-- says that no key stands twice, which every operation keeps.
use Prim.Native.String.{String}
use mathlib.Core.Path.{◌≡◌, refl}
use mathlib.Core.Bool.{Bool}
use mathlib.Core.Option.{Option, none, some}
use mathlib.Core.List.{List, [], ◌∷◌}
use native.Mathlib.Omega.{arith}
use text.Mathlib.Text.{◌==◌ as str_eq}
use text.Mathlib.TextEquality.{eq_iff}
use devagent.Base.Tests.{if◌then◌else◌}

abbrev pub Assoc {ℓ} : Type ℓ → Type ℓ
Assoc V = List (String × V)

-- `some v` if the test holds of `v`.
abbrev pub keep_value {ℓ} : {V : Type ℓ} → (V → Bool) → Option V → Option V
keep_value p none = none
keep_value p (some v) = if p v then some v else none

module _ {ℓ} {V : Type ℓ} where
  -- `v, ok := m[k]`
  unfoldable pub lookup : String → Assoc V → Option V
  lookup k [] = none
  lookup k ((j, v) ∷ m) = if str_eq j k then some v else lookup k m

  -- `m[k] = v`
  unfoldable pub insert : String → V → Assoc V → Assoc V
  insert k v [] = (k, v) ∷ []
  insert k v ((j, w) ∷ m) = if str_eq j k then (k, v) ∷ m else (j, w) ∷ insert k v m

  -- `delete(m, k)`
  unfoldable pub remove : String → Assoc V → Assoc V
  remove k [] = []
  remove k ((j, v) ∷ m) = let rest = remove k m in if str_eq j k then rest else (j, v) ∷ rest

  -- `for k, v := range m { if !p(v) { delete(m, k) } }`
  unfoldable pub keep : (V → Bool) → Assoc V → Assoc V
  keep p [] = []
  keep p ((j, v) ∷ m) = let rest = remove j (keep p m) in if p v then (j, v) ∷ rest else rest

  pub lookup-insert :
      (put asked : String) (value : V) (table : Assoc V)
      → lookup asked (insert put value table)
        ≡ (if str_eq put asked then some value else lookup asked table)
  unfolding insert lookup
  lookup-insert put asked value [] = refl
  lookup-insert put asked value ((first, held) ∷ table) =
      let rest = lookup-insert put asked value table in
      ground (arith, rest, eq_iff first put, eq_iff first asked, eq_iff put asked)

  pub lookup-remove :
      (k j : String) (m : Assoc V)
      → lookup j (remove k m) ≡ (if str_eq k j then none else lookup j m)
  unfolding lookup remove
  lookup-remove k j [] = ground arith
  lookup-remove k j ((i, v) ∷ m) =
      ground (arith, lookup-remove k j m, eq_iff i k, eq_iff i j, eq_iff k j)

  pub lookup-keep :
      (p : V → Bool) (j : String) (m : Assoc V) → lookup j (keep p m) ≡ keep_value p (lookup j m)
  unfolding lookup keep
  lookup-keep p j [] = refl
  lookup-keep p j ((i, v) ∷ m) =
      ground (arith, lookup-keep p j m, eq_iff i j, lookup-remove i j (keep p m))

  -- No key stands twice.
  abbrev pub IsMap : Assoc V → Type ℓ
  IsMap [] = Unit
  IsMap ((k, v) ∷ m) = (lookup k m ≡ none) × IsMap m

  pub insert-IsMap : (k : String) (v : V) (m : Assoc V) → IsMap m → IsMap (insert k v m)
  unfolding insert lookup
  insert-IsMap k v [] h = (refl, tt)
  insert-IsMap k v ((j, w) ∷ m) h =
      ground (arith, eq_iff j k, eq_iff k j, insert-IsMap k v m, lookup-insert k j v m)

  pub remove-IsMap : (k : String) (m : Assoc V) → IsMap m → IsMap (remove k m)
  unfolding remove
  remove-IsMap k [] h = tt
  remove-IsMap k ((j, v) ∷ m) h = ground (arith, remove-IsMap k m, lookup-remove k j m)

  pub keep-IsMap : (p : V → Bool) (m : Assoc V) → IsMap m → IsMap (keep p m)
  unfolding keep
  keep-IsMap p [] h = tt
  keep-IsMap p ((j, v) ∷ m) h =
      ground
        (arith, eq_iff j j, remove-IsMap j (keep p m), keep-IsMap p m, lookup-remove j j (keep p m))

pub ruleset assoc_laws = (lookup-insert, lookup-remove, lookup-keep)
