-- ===== src/Prelude/Maps.antt =====
-- A Go map with string keys, as an association list. The order of the list is one order in
-- which a `range` loop may visit the map.
use Prim.Native.String.{String}
use text.Mathlib.Text.{◌==◌ as str_eq}
use text.Mathlib.TextEquality.{eq_iff}
use mathlib.Core.Path.{◌≡◌}
use mathlib.Core.Option.{Option, none, some}
use mathlib.Core.List.{List, [], ◌∷◌}
use native.Mathlib.Omega.{arith}
use acestream_orchestrator.Prelude.Tests.{if◌then◌else◌}

abbrev pub Map {ℓ} : Type ℓ → Type ℓ
Map V = List (String × V)

module _ {ℓ} {V : Type ℓ} where
  -- `m[key]`, with whether it is there.
  unfoldable pub lookup : String → Map V → Option V
  lookup key [] = none
  lookup key ((name, value) ∷ entries) =
      let later = lookup key entries in if str_eq name key then some value else later

  -- `m[key] = value`.
  unfoldable pub insert : String → V → Map V → Map V
  insert key value [] = (key, value) ∷ []
  insert key value ((name, old) ∷ entries) =
      let later = insert key value entries in
      if str_eq name key then (name, value) ∷ entries else (name, old) ∷ later

  -- `delete(m, key)`.
  unfoldable pub delete : String → Map V → Map V
  delete key [] = []
  delete key ((name, value) ∷ entries) =
      let later = delete key entries in if str_eq name key then later else (name, value) ∷ later

  pub lookup-insert :
      (key other : String) (value : V) (entries : Map V)
      → lookup other (insert key value entries)
        ≡ (if str_eq key other then some value else lookup other entries)
  unfolding lookup insert
  lookup-insert key other value [] = ground arith
  lookup-insert key other value ((name, old) ∷ entries) = ground (
    arith,
    lookup-insert key other value entries,
    eq_iff key other,
    eq_iff name key,
    eq_iff name other,
  )

  pub lookup-delete :
      (key other : String) (entries : Map V)
      → lookup other (delete key entries)
        ≡ (if str_eq key other then none else lookup other entries)
  unfolding lookup delete
  lookup-delete key other [] = ground arith
  lookup-delete key other ((name, value) ∷ entries) =
      ground (
        arith,
        lookup-delete key other entries,
        eq_iff key other,
        eq_iff name key,
        eq_iff name other,
      )
