-- ===== src/Base/Names.antt =====
-- A JavaScript Set of names: a list in insertion order.
use Prim.Native.String.{String}
use mathlib.Core.Path.{◌≡◌, refl}
use mathlib.Core.Bool.{Bool, false, ◌||◌, ◌&&◌, not}
use mathlib.Core.Option.{Option, none, some}
use mathlib.Core.List.{List, [], ◌∷◌, ◌++◌}
use native.Mathlib.Omega.{arith}
use stroid.Base.Tests.{◌===◌, ===_iff, if◌then◌else◌}

-- An empty text is falsy, and counts as none where the source tests for truth.
abbrev pub truthy : Option String → Option String
truthy none = none
truthy (some s) = if s === "" then none else some s

-- `set.has(k)` or `names.includes(k)`
abbrev pub has : String → List String → Bool
has k [] = false
has k (j ∷ s) = j === k || has k s

-- `set.add(k)`
abbrev pub add : String → List String → List String
add k [] = k ∷ []
add k (j ∷ s) = if j === k then j ∷ s else j ∷ add k s

-- `set.delete(k)`, also `names.filter((i) => i !== k)`
abbrev pub remove : String → List String → List String
remove k [] = []
remove k (j ∷ s) = let rest = remove k s in if j === k then rest else j ∷ rest

-- No name twice, as in every Set.
abbrev pub IsDistinct : List String → Type 0
IsDistinct [] = Unit
IsDistinct (n ∷ ns) = (has n ns ≡ false) × IsDistinct ns

pub has-add : (j k : String) (s : List String) → has j (add k s) ≡ (k === j || has j s)
has-add j k [] = refl
has-add j k (i ∷ s) = ground (arith, ===_iff k j, ===_iff i k, ===_iff i j, has-add j k s)

pub has-remove : (j k : String) (s : List String) → has j (remove k s) ≡ (not (k === j) && has j s)
has-remove j k [] = ground arith
has-remove j k (i ∷ s) = ground (arith, ===_iff k j, ===_iff i k, ===_iff i j, has-remove j k s)

pub has-append : (j : String) (s t : List String) → has j (s ++ t) ≡ (has j s || has j t)
has-append j [] t = refl
has-append j (i ∷ s) t = ground (arith, has-append j s t)
