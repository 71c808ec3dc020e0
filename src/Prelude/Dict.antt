-- ===== src/Prelude/Dict.antt =====
-- Go's map with text keys, as an association list without repeated keys.
use Prim.Native.String.{String}
use mathlib.Core.Path.{◌≡◌, refl}
use mathlib.Core.List.{List, [], ◌∷◌}
use mathlib.Core.Option.{Option, none, some}
use native.Mathlib.Omega.{arith}
use text.Mathlib.Text.{◌==◌ as str_eq}
use text.Mathlib.TextEquality.{eq_iff}
use ocp_efa_operator.Prelude.Tests.{if◌then◌else◌}

module _ {ℓ} {V : Type ℓ} where
  -- `value, ok := m[key]`
  unfoldable pub lookup : String → List (String × V) → Option V
  lookup key [] = none
  lookup key (entry ∷ m) =
      let later = lookup key m in if str_eq entry.0 key then some entry.1 else later

  -- `m[key] = value`
  unfoldable pub insert : String → V → List (String × V) → List (String × V)
  insert key value [] = (key, value) ∷ []
  insert key value (entry ∷ m) =
      let later = insert key value m in
      if str_eq entry.0 key then (key, value) ∷ m else entry ∷ later

  -- `delete(m, key)`
  unfoldable pub erase : String → List (String × V) → List (String × V)
  erase key [] = []
  erase key (entry ∷ m) =
      let later = erase key m in if str_eq entry.0 key then later else entry ∷ later

  module _ (key other : String) where
    pub lookup-insert :
        (value : V) (m : List (String × V))
        → lookup other (insert key value m)
          ≡ (if str_eq key other then some value else lookup other m)
    unfolding lookup insert
    lookup-insert value [] = refl
    lookup-insert value (entry ∷ m) =
        ground
          (arith, lookup-insert value m, eq_iff entry.0 key, eq_iff entry.0 other, eq_iff key other)

    pub lookup-erase :
        (m : List (String × V))
        → lookup other (erase key m) ≡ (if str_eq key other then none else lookup other m)
    unfolding lookup erase
    lookup-erase [] = ground arith
    lookup-erase (entry ∷ m) =
        ground (arith, lookup-erase m, eq_iff entry.0 key, eq_iff entry.0 other, eq_iff key other)
