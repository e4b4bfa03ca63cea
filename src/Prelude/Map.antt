-- ===== src/Prelude/Map.antt =====
-- Hash maps as association lists, over keys with a Boolean equality.
use mathlib.Core.Path.{◌≡◌, refl}
use mathlib.Core.Logic.{◌↔◌}
use mathlib.Core.Bool.{Bool, true, ◌&&◌}
use mathlib.Core.Option.{Option, none, some}
use mathlib.Core.List.{List, [], ◌∷◌}
use native.Mathlib.Omega.{arith}
use otk_core.Prelude.Tests.{if◌then◌else◌}
use otk_core.Prelude.ByteStrings.{Text, text_eq, text_eq_iff}

-- A pair of identifiers.
abbrev pub Key : Type 0
Key = Text × Text

abbrev pub key_eq : Key → Key → Bool
key_eq (a, b) (c, d) = text_eq a c && text_eq b d

pub key_eq_iff : (j k : Key) → (key_eq j k ≡ true) ↔ (j ≡ k)
key_eq_iff (a, b) (c, d) = ground (arith, text_eq_iff a c, text_eq_iff b d)

abbrev pub Map {ℓ} : Type ℓ → Type ℓ
Map V = List (Key × V)

module _ {ℓ} {V : Type ℓ} where
  unfoldable pub lookup : Key → Map V → Option V
  lookup k [] = none
  lookup k ((j, v) ∷ m) = if key_eq j k then some v else lookup k m

  unfoldable pub insert : Key → V → Map V → Map V
  insert k v [] = (k, v) ∷ []
  insert k v ((j, w) ∷ m) = if key_eq j k then (k, v) ∷ m else (j, w) ∷ insert k v m

  unfoldable pub remove : Key → Map V → Map V
  remove k [] = []
  remove k ((j, w) ∷ m) = if key_eq j k then remove k m else (j, w) ∷ remove k m

  pub lookup-insert :
      (k j : Key) (v : V) (m : Map V)
      → lookup j (insert k v m) ≡ (if key_eq k j then some v else lookup j m)
  unfolding lookup insert
  lookup-insert k j v [] = refl
  lookup-insert k j v ((i, w) ∷ m) =
      ground (arith, key_eq_iff k j, key_eq_iff i k, key_eq_iff i j, lookup-insert k j v m)

  pub lookup-remove :
      (k j : Key) (m : Map V) → lookup j (remove k m) ≡ (if key_eq k j then none else lookup j m)
  unfolding lookup remove
  lookup-remove k j [] = ground arith
  lookup-remove k j ((i, w) ∷ m) =
      ground (arith, key_eq_iff k j, key_eq_iff i k, key_eq_iff i j, lookup-remove k j m)
