-- ===== src/Base/Dict.antt =====
-- A JavaScript object used as a record by name, or a Map by name: an association list in insertion
-- order. Writing to a present key keeps its place.
use Prim.Native.String.{String}
use mathlib.Core.Path.{◌≡◌, refl}
use mathlib.Core.Bool.{Bool}
use mathlib.Core.Option.{Option, none, some}
use mathlib.Core.List.{List, [], ◌∷◌}
use native.Mathlib.Omega.{arith}
use stroid.Base.Names.{has}
use stroid.Base.Tests.{◌===◌, ===_iff, if◌then◌else◌, is_some}

abbrev pub Dict {ℓ} : Type ℓ → Type ℓ
Dict V = List (String × V)

module _ {ℓ} {V : Type ℓ} where
  -- `m[k]` or `m.get(k)`, `none` for undefined
  abbrev pub lookup : String → Dict V → Option V
  lookup k [] = none
  lookup k ((j, v) ∷ m) = if j === k then some v else lookup k m

  -- `Object.prototype.hasOwnProperty.call(m, k)` or `m.has(k)`
  abbrev pub has_key : String → Dict V → Bool
  has_key k m = is_some (lookup k m)

  -- `m[k] = v` or `m.set(k, v)`
  abbrev pub insert : String → V → Dict V → Dict V
  insert k v [] = (k, v) ∷ []
  insert k v ((j, w) ∷ m) = if j === k then (j, v) ∷ m else (j, w) ∷ insert k v m

  -- `delete m[k]` or `m.delete(k)`
  abbrev pub erase : String → Dict V → Dict V
  erase k [] = []
  erase k ((j, w) ∷ m) = let rest = erase k m in if j === k then rest else (j, w) ∷ rest

  -- `Object.keys(m)` or `m.keys()`
  abbrev pub keys : Dict V → List String
  keys [] = []
  keys ((j, w) ∷ m) = j ∷ keys m

  pub lookup-insert :
      (j k : String) (v : V) (m : Dict V)
      → lookup j (insert k v m) ≡ (if k === j then some v else lookup j m)
  lookup-insert j k v [] = refl
  lookup-insert j k v ((i, w) ∷ m) =
      ground (arith, ===_iff k j, ===_iff i k, ===_iff i j, lookup-insert j k v m)

  pub lookup-erase :
      (j k : String) (m : Dict V) → lookup j (erase k m) ≡ (if k === j then none else lookup j m)
  lookup-erase j k [] = ground arith
  lookup-erase j k ((i, w) ∷ m) =
      ground (arith, ===_iff k j, ===_iff i k, ===_iff i j, lookup-erase j k m)

pub has-keys {ℓ} : {V : Type ℓ} (k : String) (m : Dict V) → has k (keys m) ≡ has_key k m
has-keys k [] = refl
has-keys k ((i, w) ∷ m) = ground (arith, has-keys k m)
