-- ===== src/Base/Maps.antt =====
-- `HashMap<String, V>` as an association list. No part of the program that is modelled depends on
-- the order in which a map is iterated.
use mathlib.Core.Path.{◌≡◌, refl}
use mathlib.Core.Option.{Option, none, some}
use mathlib.Core.List.{List, [], ◌∷◌}
use native.Mathlib.Omega.{arith}
use brewdock.Base.Tests.{if◌then◌else◌}
use brewdock.Base.Bytes.{Text, text_eq, text_eq_iff}

abbrev pub Assoc {ℓ} : Type ℓ → Type ℓ
Assoc V = List (Text × V)

module _ {ℓ} {V : Type ℓ} where
  -- `get` of the source's maps.
  unfoldable pub lookup : Text → Assoc V → Option V
  lookup key [] = none
  lookup key (entry ∷ map) = if text_eq entry.0 key then some entry.1 else lookup key map

  unfoldable pub insert : Text → V → Assoc V → Assoc V
  insert key value [] = (key, value) ∷ []
  insert key value (entry ∷ map) =
      if text_eq entry.0 key then (key, value) ∷ map else entry ∷ insert key value map

  pub lookup-insert :
      (key other : Text) (value : V) (map : Assoc V)
      → lookup other (insert key value map)
        ≡ (if text_eq key other then some value else lookup other map)
  unfolding lookup insert
  lookup-insert key other value [] = refl
  lookup-insert key other value ((name, held) ∷ map) = ground (
    arith,
    text_eq_iff name key,
    text_eq_iff name other,
    text_eq_iff key other,
    lookup-insert key other value map,
  )
