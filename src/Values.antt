-- ===== src/Values.antt =====
-- Values as the source compares them (src/utils/clone.ts). A number stands for a value under
-- `Object.is`: two values have one number exactly if `Object.is` holds of them. An object is its
-- reference with its own properties; properties are references again.
use stroid.Base.{ℕ, Bool, true, false, ◌&&◌, ◌||◌, Option, some, List, [], ◌∷◌, ◌==◌, length}
use stroid.Base.Dict.{Dict, lookup, keys}
use stroid.Base.{String}

pub data Value : Type 0 where
  primitive : ℕ → Value
  object : ℕ → Dict ℕ → Value

-- `Object.is`: objects are compared by reference.
abbrev pub object_is : Value → Value → Bool
object_is (primitive a) (primitive b) = a == b
object_is (object i m) (object j n) = i == j
object_is (primitive a) (object j n) = false
object_is (object i m) (primitive b) = false

-- The value under a key: the property is there and is the same.
abbrev pub same_at : Option ℕ → Option ℕ → Bool
same_at (some a) (some b) = a == b
same_at _ _ = false

abbrev pub same_entries : List String → Dict ℕ → Dict ℕ → Bool
same_entries [] m n = true
same_entries (k ∷ ks) m n = same_at (lookup k m) (lookup k n) && same_entries ks m n

pub shallow_equal : Value → Value → Bool
shallow_equal (object i m) (object j n) =
    i == j || ((length (keys m) == length (keys n)) && same_entries (keys m) m n)
shallow_equal a b = object_is a b
