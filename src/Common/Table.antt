-- ===== src/Common/Table.antt =====
-- A `HashMap<String, V>` as an association list. Where the code walks a map, the list is any order of
-- its entries.
use Prim.Native.String.{String}
use mathlib.Core.Path.{◌≡◌, refl}
use mathlib.Core.Bool.{Bool}
use mathlib.Core.Option.{Option, none, some}
use mathlib.Core.List.{List, [], ◌∷◌}
use native.Mathlib.Omega.{arith}
use text.Mathlib.Text.{◌==◌ as str_eq}
use text.Mathlib.TextEquality.{eq_iff}
use nexum_core.Common.Tests.{if◌then◌else◌}

abbrev pub Table {ℓ} : Type ℓ → Type ℓ
Table V = List (String × V)

module _ {ℓ} {V : Type ℓ} where
  -- `map.get(key)`
  unfoldable pub lookup : String → Table V → Option V
  lookup key [] = none
  lookup key ((name, value) ∷ table) = if str_eq name key then some value else lookup key table

  -- `map.insert(key, value)`
  unfoldable pub insert : String → V → Table V → Table V
  insert key new [] = (key, new) ∷ []
  insert key new ((name, value) ∷ table) =
      let rest = insert key new table in
      if str_eq name key then (key, new) ∷ table else (name, value) ∷ rest

  -- `map.retain(|_, value| keep(value))`
  unfoldable pub retain : (V → Bool) → Table V → Table V
  retain keep [] = []
  retain keep ((name, value) ∷ table) =
      let rest = retain keep table in if keep value then (name, value) ∷ rest else rest

  pub lookup-insert :
      (key other : String) (new : V) (table : Table V)
      → lookup other (insert key new table)
        ≡ (if str_eq key other then some new else lookup other table)
  unfolding lookup insert
  lookup-insert key other new [] = refl
  lookup-insert key other new ((name, value) ∷ table) = ground (
    arith,
    eq_iff key other,
    eq_iff name key,
    eq_iff name other,
    lookup-insert key other new table,
  )
