-- ===== src/Prelude/Maps.antt =====
-- A Go map with string keys, as an association list, and a dynamic value in one.
use Prim.Native.String.{String}
use mathlib.Core.Option.{Option, none, some}
use mathlib.Core.List.{List, [], ◌∷◌}
use go_user_and_service_mgmt.Prelude.Tests.{if◌then◌else◌, ◌==◌, text_comparable}

-- What a decoder puts into an `interface{}`; of the values that are no text, only the type
-- matters to the program.
pub data Value : Type 0 where
  string : String → Value
  number boolean array object null : Value

module _ {ℓ} {A : Type ℓ} where
  -- `value, ok := m[key]`
  abbrev pub lookup : String → List (String × A) → Option A
  lookup key [] = none
  lookup key ((k, v) ∷ rest) = let later = lookup key rest in if k == key then some v else later

  -- `m[key] = v`
  abbrev pub insert : String → A → List (String × A) → List (String × A)
  insert key v [] = (key, v) ∷ []
  insert key v ((k, old) ∷ rest) =
      let later = insert key v rest in if k == key then (k, v) ∷ rest else (k, old) ∷ later
