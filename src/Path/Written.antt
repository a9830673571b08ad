-- ===== src/Path/Written.antt =====
-- A path that `validatePathSafety` accepts and `setByPath` writes (src/utils/path.ts,
-- src/core/store-lifecycle/validation.ts): what is read under it, and under the other paths.
use stroid.Base.{
  ℕ, String, Bool, true, false, Option, some, List, [], ◌∷◌, ◌≡◌, refl, sym, ap, ap₂, ◌∙◌, inl, inr,
  arith, Bool-cases, &&-eq-true, ||-eq-false, All, if◌then◌else◌,
}
use stroid.Path.Tree.{
  Json, undefined, null, primitive, array, object, Items, Fields, SupportedType, get_type, is_same,
  is_same-eq, find, has_own, put, find-put, item_at-put_at,
}
use stroid.Path.Access.{
  Index, not_integer, negative, place, is_forbidden, has_forbidden, read_element, read_key,
  get_by_path, put_element, read_place, apply_at, set_key, set_parts, set_by_path, in_bounds,
  is_safe,
}

-- A key that `Number` reads as an index is the text of that index, which reads the element.
abbrev pub IsPlain : (String → Index) → (String → Option ℕ) → String → Type 0
IsPlain to_index element_key key = (i : ℕ) → to_index key ≡ place i → element_key key ≡ some i

module _ (to_index : String → Index) (element_key : String → Option ℕ) where
  pub in_bounds-place :
      (ix : Index) (xs : Items) → in_bounds to_index ix xs ≡ true → (i : ℕ) × (ix ≡ place i)
  in_bounds-place not_integer xs h = ground (arith, h)
  in_bounds-place negative xs h = ground (arith, h)
  in_bounds-place (place i) xs h = (i, refl)

  pub read-put_element :
      (key : String) (value : Json) (xs : Items)
      → IsPlain to_index element_key key
      → in_bounds to_index (to_index key) xs ≡ true
      → read_key element_key key (array (put_element to_index (to_index key) value xs)) ≡ value
  read-put_element key value xs p h =
      let (i, e) = in_bounds-place (to_index key) xs h in
      ap₂ (λ o ix. read_element o (put_element to_index ix value xs)) (p i e) e
      ∙ item_at-put_at i value xs

  pub put-fields :
      (key : String) (value : Json) (fs : Fields)
      → is_forbidden key ≡ false
      → (if is_forbidden key then object fs else object (put key value fs))
        ≡ object (put key value fs)
  put-fields key value fs h = ap (λ b. if b then object fs else object (put key value fs)) h

  apply_at-reads :
      (allow : Bool) (parts : List String) (value : Json) (incoming : SupportedType) (key : String)
      (obj : Json)
      → has_forbidden (key ∷ parts) ≡ false
      → is_safe to_index allow (key ∷ parts) incoming obj ≡ true
      → All (IsPlain to_index element_key) (key ∷ parts)
      → get_by_path element_key (key ∷ parts) (apply_at to_index (key ∷ parts) value obj) ≡ value
  unfolding get_by_path is_safe apply_at
  apply_at-reads allow [] value incoming key (array xs) f s (p, ps) =
      read-put_element key value xs p (&&-eq-true (in_bounds to_index (to_index key) xs) _ s).0
  apply_at-reads allow [] value incoming key (object fs) f s (p, ps) =
      ap (read_key element_key key)
        (put-fields key value fs (||-eq-false (is_forbidden key) (has_forbidden []) f).0)
      ∙ find-put key value fs
  apply_at-reads allow (k ∷ parts) value incoming key (array xs) f s (p, ps) =
      let inner = read_place to_index (to_index key) xs in
      let (h, rest) = &&-eq-true (in_bounds to_index (to_index key) xs) _ s in
      let no = ||-eq-false (is_forbidden key) (has_forbidden (k ∷ parts)) f in
      ap (get_by_path element_key (k ∷ parts))
        (read-put_element key (apply_at to_index (k ∷ parts) value inner) xs p h)
      ∙ apply_at-reads allow parts value incoming k inner no.1 rest ps
  apply_at-reads allow (k ∷ parts) value incoming key (object fs) f s (p, ps) =
      let inner = find key fs in
      let (h, rest) = &&-eq-true (has_own key fs) _ s in
      let no = ||-eq-false (is_forbidden key) (has_forbidden (k ∷ parts)) f in
      let written = apply_at to_index (k ∷ parts) value inner in
      ap (get_by_path element_key (k ∷ parts))
        (ap (read_key element_key key) (put-fields key written fs no.0) ∙ find-put key written fs)
      ∙ apply_at-reads allow parts value incoming k inner no.1 rest ps
  apply_at-reads allow [] value incoming key undefined f s x = ground (arith, s)
  apply_at-reads allow [] value incoming key null f s x = ground (arith, s)
  apply_at-reads allow [] value incoming key (primitive p n) f s x = ground (arith, s)
  apply_at-reads allow (k ∷ parts) value incoming key undefined f s x = ground (arith, s)
  apply_at-reads allow (k ∷ parts) value incoming key null f s x = ground (arith, s)
  apply_at-reads allow (k ∷ parts) value incoming key (primitive p n) f s x = ground (arith, s)

  -- What is in place already is not written again.
  set_key-apply :
      (key : String) (value : Json) (xs : Items)
      → IsPlain to_index element_key key
      → in_bounds to_index (to_index key) xs ≡ true
      → read_key element_key key (set_key to_index key value (array xs)) ≡ value
  set_key-apply key value xs p h =
      let (i, e) = in_bounds-place (to_index key) xs h in
      elim (Bool-cases (is_same (read_place to_index (to_index key) xs) value)) [
        | inl y ↦
            ap (read_key element_key key) (if-array y)
            ∙ ap₂ read_element (p i e) refl
            ∙ ap (λ ix. read_place to_index ix xs) (sym e)
            ∙ is_same-eq (read_place to_index (to_index key) xs) value y
        | inr n ↦ ap (read_key element_key key) (if-array n) ∙ read-put_element key value xs p h
      ]
    where
      if-array :
          {b : Bool}
          → is_same (read_place to_index (to_index key) xs) value ≡ b
          → set_key to_index key value (array xs)
            ≡ (if b then array xs else array (put_element to_index (to_index key) value xs))
      if-array e =
          ap (λ c. if c then array xs else array (put_element to_index (to_index key) value xs)) e

  set_key-field :
      (key : String) (value : Json) (fs : Fields)
      → read_key element_key key (set_key to_index key value (object fs)) ≡ value
  set_key-field key value fs = elim (Bool-cases (is_same (find key fs) value)) [
    | inl y ↦
        ap (λ b. read_key element_key key (if b then object fs else object (put key value fs))) y
        ∙ is_same-eq (find key fs) value y
    | inr n ↦
        ap (λ b. read_key element_key key (if b then object fs else object (put key value fs))) n
        ∙ find-put key value fs
  ]

  set_parts-reads :
      (allow : Bool) (parts : List String) (value : Json) (incoming : SupportedType) (key : String)
      (obj : Json)
      → has_forbidden (key ∷ parts) ≡ false
      → is_safe to_index allow (key ∷ parts) incoming obj ≡ true
      → All (IsPlain to_index element_key) (key ∷ parts)
      → get_by_path element_key (key ∷ parts) (set_parts to_index (key ∷ parts) value obj) ≡ value
  unfolding get_by_path is_safe
  set_parts-reads allow (k ∷ parts) value incoming key obj f s p =
      apply_at-reads allow (k ∷ parts) value incoming key obj f s p
  set_parts-reads allow [] value incoming key (array xs) f s (p, ps) =
      set_key-apply key value xs p (&&-eq-true (in_bounds to_index (to_index key) xs) _ s).0
  set_parts-reads allow [] value incoming key (object fs) f s (p, ps) = set_key-field key value fs
  set_parts-reads allow [] value incoming key undefined f s x = ground (arith, s)
  set_parts-reads allow [] value incoming key null f s x = ground (arith, s)
  set_parts-reads allow [] value incoming key (primitive p n) f s x = ground (arith, s)

  -- A value that is written under a path with no forbidden key, which the check of paths accepts, is what
  -- the path reads afterwards. Each key that `Number` reads as an index is the plain text of that index.
  pub safe_path_reads_back :
      (allow : Bool) (key : String) (parts : List String) (value obj : Json)
      → has_forbidden (key ∷ parts) ≡ false
      → is_safe to_index allow (key ∷ parts) (get_type value) obj ≡ true
      → All (IsPlain to_index element_key) (key ∷ parts)
      → get_by_path element_key (key ∷ parts) (set_by_path to_index (key ∷ parts) value obj) ≡ value
  unfolding set_by_path
  safe_path_reads_back allow key parts value obj f s p =
      ap
        (λ b.
          get_by_path element_key (key ∷ parts)
            (if b then obj else set_parts to_index (key ∷ parts) value obj))
        f
      ∙ set_parts-reads allow parts value (get_type value) key obj f s p
