-- ===== src/Path/Access.antt =====
-- `getByPath` and `setByPath` (src/utils/path.ts) on trees, for a path that is parsed, with the walk of
-- `validatePathSafety` (src/core/store-lifecycle/validation.ts) before its cache. What JavaScript makes of a
-- key is two parameters: `to_index` is `Number(key)` as far as an array is concerned, and
-- `element_key` says which element `items[key]` reads. Warnings are left out.
use stroid.Base.{
  ℕ, String, Bool, true, false, ◌&&◌, ◌||◌, Option, none, some, List, [], ◌∷◌, if◌then◌else◌, ltb,
}
use stroid.Base.Names.{has}
use stroid.Path.Tree.{
  Json, undefined, null, primitive, array, object, Items, nil, end, SupportedType, get_type,
  same_type, is_same, find, has_own, put, item_at, put_at, size,
}

pub data Index : Type 0 where
  not_integer : Index
  negative : Index
  place : ℕ → Index

abbrev pub forbidden_object_keys : List String
forbidden_object_keys = "__proto__" ∷ "constructor" ∷ "prototype" ∷ []

abbrev pub is_forbidden : String → Bool
is_forbidden key = has key forbidden_object_keys

abbrev pub has_forbidden : List String → Bool
has_forbidden [] = false
has_forbidden (key ∷ parts) = is_forbidden key || has_forbidden parts

abbrev pub read_element : Option ℕ → Items → Json
read_element none xs = undefined
read_element (some i) xs = item_at i xs

module _ (element_key : String → Option ℕ) where
  abbrev pub read_key : String → Json → Json
  read_key key (array xs) = read_element (element_key key) xs
  read_key key (object fs) = find key fs
  read_key key _ = undefined

  unfoldable pub get_by_path : List String → Json → Json
  get_by_path [] current = current
  get_by_path (key ∷ parts) current = get_by_path parts (read_key key current)

module _ (to_index : String → Index) where
  -- A negative index sets a property of the copy that is no element.
  abbrev pub put_element : Index → Json → Items → Items
  put_element not_integer value xs = xs
  put_element negative value xs = xs
  put_element (place i) value xs = put_at i value xs

  abbrev pub read_place : Index → Items → Json
  read_place (place i) xs = item_at i xs
  read_place _ xs = undefined

  -- The container for a key under a value that is null or undefined.
  abbrev pub container_at : Index → String → Json → Json
  container_at not_integer key value = object (put key value end)
  container_at negative key value = array nil
  container_at (place i) key value = array (put_at i value nil)

  -- `applyAt`
  unfoldable pub apply_at : List String → Json → Json → Json
  apply_at [] value current = current
  apply_at (key ∷ []) value (array xs) = array (put_element (to_index key) value xs)
  apply_at (key ∷ []) value (object fs) =
      if is_forbidden key then object fs else object (put key value fs)
  apply_at (key ∷ []) value _ = value
  apply_at (key ∷ k ∷ parts) value (array xs) =
      let inner = apply_at (k ∷ parts) value (read_place (to_index key) xs) in
      array (put_element (to_index key) inner xs)
  apply_at (key ∷ k ∷ parts) value (object fs) =
      let inner = apply_at (k ∷ parts) value (find key fs) in
      if is_forbidden key then object fs else object (put key inner fs)
  apply_at (key ∷ k ∷ parts) value null =
      container_at (to_index key) key (apply_at (k ∷ parts) value undefined)
  apply_at (key ∷ k ∷ parts) value undefined =
      container_at (to_index key) key (apply_at (k ∷ parts) value undefined)
  apply_at (key ∷ k ∷ parts) value (primitive p n) = primitive p n

  -- A path of one key.
  abbrev pub set_key : String → Json → Json → Json
  set_key key value (array xs) =
      if is_same (read_place (to_index key) xs) value
      then array xs
      else array (put_element (to_index key) value xs)
  set_key key value (object fs) =
      if is_same (find key fs) value then object fs else object (put key value fs)
  set_key key value obj = obj

  abbrev pub set_parts : List String → Json → Json → Json
  set_parts [] value obj = obj
  set_parts (key ∷ []) value obj = set_key key value obj
  set_parts (key ∷ k ∷ parts) value obj = apply_at (key ∷ k ∷ parts) value obj

  unfoldable pub set_by_path : List String → Json → Json → Json
  set_by_path parts value obj = if has_forbidden parts then obj else set_parts parts value obj

  -- `existing !== undefined && existing !== null && getType(existing) !== incomingType`
  abbrev pub keeps_type : Json → SupportedType → Bool
  keeps_type undefined incoming = true
  keeps_type null incoming = true
  keeps_type existing incoming = same_type (get_type existing) incoming

  -- Whether the key may be followed, or written if it is the last one.
  abbrev pub in_bounds : Index → Items → Bool
  in_bounds (place i) xs = ltb i (size xs)
  in_bounds _ xs = false

  unfoldable pub is_safe : Bool → List String → SupportedType → Json → Bool
  is_safe allow_create [] incoming cursor = true
  is_safe allow_create (key ∷ []) incoming (array xs) =
      in_bounds (to_index key) xs && keeps_type (read_place (to_index key) xs) incoming
  is_safe allow_create (key ∷ []) incoming (object fs) =
      if has_own key fs then keeps_type (find key fs) incoming else allow_create
  is_safe allow_create (key ∷ k ∷ parts) incoming (array xs) =
      let rest = is_safe allow_create (k ∷ parts) incoming (read_place (to_index key) xs) in
      in_bounds (to_index key) xs && rest
  is_safe allow_create (key ∷ k ∷ parts) incoming (object fs) =
      let rest = is_safe allow_create (k ∷ parts) incoming (find key fs) in has_own key fs && rest
  is_safe allow_create (key ∷ parts) incoming _ = false
