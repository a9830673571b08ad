-- ===== src/Path/Siblings.antt =====
-- What `setByPath` leaves alone (src/utils/path.ts).
use stroid.Base.{
  ℕ, String, Bool, true, false, Option, some, List, [], ◌∷◌, ◌≡◌, ◌≢◌, refl, sym, ap, ◌∙◌, ◌⊎◌, inl,
  inr, arith, Option-cases, &&-eq-true, ||-eq-false, All, if◌then◌else◌, if-both, subst,
}
use stroid.Path.Tree.{
  Json, undefined, null, primitive, array, object, Items, Fields, SupportedType, get_type, is_same,
  find, has_own, put, find-put, find-put-other, item_at-put_at-other,
}
use stroid.Path.Access.{
  Index, place, is_forbidden, has_forbidden, read_element, read_key, get_by_path, put_element,
  read_place, apply_at, set_parts, set_by_path, in_bounds, is_safe,
}
use stroid.Path.Written.{IsPlain, in_bounds-place, read-put_element, put-fields}

-- The paths part at some key, and no key of one goes on behind the other.
abbrev pub Diverges : List String → List String → Type 0
Diverges (k ∷ ps) (q ∷ qs) = (k ≢ q) ⊎ ((k ≡ q) × Diverges ps qs)
Diverges _ _ = ⊥

-- No element is read by two keys.
abbrev pub IsInjective : (String → Option ℕ) → Type 0
IsInjective element_key =
    (j k : String) (i : ℕ) → element_key j ≡ some i → element_key k ≡ some i → j ≡ k

module _ (to_index : String → Index) (element_key : String → Option ℕ)
    (injective : IsInjective element_key) where
  read-put_element-other :
      (q key : String) (value : Json) (xs : Items)
      → q ≢ key
      → IsPlain to_index element_key key
      → in_bounds to_index (to_index key) xs ≡ true
      → read_key element_key q (array (put_element to_index (to_index key) value xs))
        ≡ read_key element_key q (array xs)
  read-put_element-other q key value xs ne p h =
      let (i, e) = in_bounds-place to_index element_key (to_index key) xs h in
      ap (λ ix. read_key element_key q (array (put_element to_index ix value xs))) e
      ∙ elim (Option-cases (element_key q)) [
        | inl n ↦
            ap (λ o. read_element o (put_element to_index (place i) value xs)) n
            ∙ ap (λ o. read_element o xs) (sym n)
        | inr (j, s) ↦
            ap (λ o. read_element o (put_element to_index (place i) value xs)) s
            ∙ item_at-put_at-other j i value xs
                (λ same. ne (injective q key i (s ∙ ap some same) (p i e)))
            ∙ ap (λ o. read_element o xs) (sym s)
      ]

  read-put_fields-other :
      (q key : String) (value : Json) (fs : Fields)
      → q ≢ key
      → is_forbidden key ≡ false
      → read_key element_key q (if is_forbidden key then object fs else object (put key value fs))
        ≡ find q fs
  read-put_fields-other q key value fs ne f =
      ap (read_key element_key q) (put-fields to_index element_key key value fs f)
      ∙ find-put-other q key value fs ne

  read-place :
      (key : String) (xs : Items)
      → IsPlain to_index element_key key
      → in_bounds to_index (to_index key) xs ≡ true
      → read_key element_key key (array xs) ≡ read_place to_index (to_index key) xs
  read-place key xs p h =
      let (i, e) = in_bounds-place to_index element_key (to_index key) xs h in
      ap (λ o. read_element o xs) (p i e) ∙ ap (λ ix. read_place to_index ix xs) (sym e)

  apply_at-others :
      (allow : Bool) (parts : List String) (value : Json) (incoming : SupportedType) (key : String)
      (q : String) (qs : List String) (obj : Json)
      → has_forbidden (key ∷ parts) ≡ false
      → is_safe to_index allow (key ∷ parts) incoming obj ≡ true
      → All (IsPlain to_index element_key) (key ∷ parts)
      → Diverges (key ∷ parts) (q ∷ qs)
      → get_by_path element_key (q ∷ qs) (apply_at to_index (key ∷ parts) value obj)
        ≡ get_by_path element_key (q ∷ qs) obj
  unfolding get_by_path is_safe apply_at
  apply_at-others allow [] value incoming key q qs (array xs) f s (p, ps) (inl ne) =
      ap (get_by_path element_key qs) (
        read-put_element-other q key value xs (λ e. ne (sym e)) p
          (&&-eq-true (in_bounds to_index (to_index key) xs) _ s).0)
  apply_at-others allow [] value incoming key q qs (object fs) f s (p, ps) (inl ne) =
      ap (get_by_path element_key qs) (
        read-put_fields-other q key value fs (λ e. ne (sym e))
          (||-eq-false (is_forbidden key) (has_forbidden []) f).0)
  apply_at-others allow (k ∷ parts) value incoming key q qs (array xs) f s (p, ps) (inl ne) =
      ap (get_by_path element_key qs) (
        read-put_element-other q key
          (apply_at to_index (k ∷ parts) value (read_place to_index (to_index key) xs)) xs
          (λ e. ne (sym e)) p (&&-eq-true (in_bounds to_index (to_index key) xs) _ s).0)
  apply_at-others allow (k ∷ parts) value incoming key q qs (object fs) f s (p, ps) (inl ne) =
      ap (get_by_path element_key qs) (
        read-put_fields-other q key (apply_at to_index (k ∷ parts) value (find key fs)) fs
          (λ e. ne (sym e)) (||-eq-false (is_forbidden key) (has_forbidden (k ∷ parts)) f).0)
  apply_at-others allow (k ∷ parts) value incoming key q (r ∷ qs) (array xs) f s (p, ps)
        (inr (same, d)) =
      let inner = read_place to_index (to_index key) xs in
      let (h, rest) = &&-eq-true (in_bounds to_index (to_index key) xs) _ s in
      let no = ||-eq-false (is_forbidden key) (has_forbidden (k ∷ parts)) f in
      subst
        (λ q.
          get_by_path element_key (q ∷ r ∷ qs)
            (apply_at to_index (key ∷ k ∷ parts) value (array xs))
          ≡ get_by_path element_key (q ∷ r ∷ qs) (array xs))
        same
        (ap (get_by_path element_key (r ∷ qs)) (
            read-put_element to_index element_key key (apply_at to_index (k ∷ parts) value inner) xs
              p h)
          ∙ apply_at-others allow parts value incoming k r qs inner no.1 rest ps d
          ∙ ap (get_by_path element_key (r ∷ qs)) (sym (read-place key xs p h)))
  apply_at-others allow (k ∷ parts) value incoming key q (r ∷ qs) (object fs) f s (p, ps)
        (inr (same, d)) =
      let inner = find key fs in
      let written = apply_at to_index (k ∷ parts) value inner in
      let (h, rest) = &&-eq-true (has_own key fs) _ s in
      let no = ||-eq-false (is_forbidden key) (has_forbidden (k ∷ parts)) f in
      subst
        (λ q.
          get_by_path element_key (q ∷ r ∷ qs)
            (apply_at to_index (key ∷ k ∷ parts) value (object fs))
          ≡ get_by_path element_key (q ∷ r ∷ qs) (object fs))
        same
        (ap (get_by_path element_key (r ∷ qs)) (
            ap (read_key element_key key) (put-fields to_index element_key key written fs no.0)
            ∙ find-put key written fs)
          ∙ apply_at-others allow parts value incoming k r qs inner no.1 rest ps d)
  apply_at-others allow [] value incoming key q qs undefined f s x y = ground (arith, s)
  apply_at-others allow [] value incoming key q qs null f s x y = ground (arith, s)
  apply_at-others allow [] value incoming key q qs (primitive t n) f s x y = ground (arith, s)
  apply_at-others allow [] value incoming key q qs (array xs) f s x (inr y) = elim (y.1) [ ]
  apply_at-others allow [] value incoming key q qs (object fs) f s x (inr y) = elim (y.1) [ ]
  apply_at-others allow (k ∷ parts) value incoming key q qs undefined f s x y = ground (arith, s)
  apply_at-others allow (k ∷ parts) value incoming key q qs null f s x y = ground (arith, s)
  apply_at-others allow (k ∷ parts) value incoming key q qs (primitive t n) f s x y =
      ground (arith, s)
  apply_at-others allow (k ∷ parts) value incoming key q [] (array xs) f s x (inr y) =
      elim (y.1) [ ]
  apply_at-others allow (k ∷ parts) value incoming key q [] (object fs) f s x (inr y) =
      elim (y.1) [ ]

  -- The two ways in which a path of one key is written agree under every other path.
  set_parts-others :
      (allow : Bool) (parts : List String) (value : Json) (incoming : SupportedType) (key : String)
      (q : String) (qs : List String) (obj : Json)
      → has_forbidden (key ∷ parts) ≡ false
      → is_safe to_index allow (key ∷ parts) incoming obj ≡ true
      → All (IsPlain to_index element_key) (key ∷ parts)
      → Diverges (key ∷ parts) (q ∷ qs)
      → get_by_path element_key (q ∷ qs) (set_parts to_index (key ∷ parts) value obj)
        ≡ get_by_path element_key (q ∷ qs) obj
  unfolding is_safe apply_at
  set_parts-others allow (k ∷ parts) value incoming key q qs obj f s p d =
      apply_at-others allow (k ∷ parts) value incoming key q qs obj f s p d
  set_parts-others allow [] value incoming key q qs (array xs) f s p d =
      if-both
        (λ x. get_by_path element_key (q ∷ qs) x ≡ get_by_path element_key (q ∷ qs) (array xs))
        (is_same (read_place to_index (to_index key) xs) value) (array xs)
        (array (put_element to_index (to_index key) value xs)) refl
        (apply_at-others allow [] value incoming key q qs (array xs) f s p d)
  set_parts-others allow [] value incoming key q qs (object fs) f s p d =
      if-both
        (λ x. get_by_path element_key (q ∷ qs) x ≡ get_by_path element_key (q ∷ qs) (object fs))
        (is_same (find key fs) value) (object fs) (object (put key value fs)) refl
        (ap (get_by_path element_key (q ∷ qs)) (
            sym (
              put-fields to_index element_key key value fs
                (||-eq-false (is_forbidden key) (has_forbidden []) f).0))
          ∙ apply_at-others allow [] value incoming key q qs (object fs) f s p d)
  set_parts-others allow [] value incoming key q qs undefined f s x y = ground (arith, s)
  set_parts-others allow [] value incoming key q qs null f s x y = ground (arith, s)
  set_parts-others allow [] value incoming key q qs (primitive t n) f s x y = ground (arith, s)

  -- A value that is written under a path which the check of paths accepts changes nothing under a path
  -- that parts from it at some key. The path has no forbidden key, each key that `Number` reads as an index
  -- is the plain text of that index, and no element is read by two keys.
  pub safe_path_leaves_others :
      (allow : Bool) (key : String) (parts : List String) (q : String) (qs : List String)
      (value obj : Json)
      → has_forbidden (key ∷ parts) ≡ false
      → is_safe to_index allow (key ∷ parts) (get_type value) obj ≡ true
      → All (IsPlain to_index element_key) (key ∷ parts)
      → Diverges (key ∷ parts) (q ∷ qs)
      → get_by_path element_key (q ∷ qs) (set_by_path to_index (key ∷ parts) value obj)
        ≡ get_by_path element_key (q ∷ qs) obj
  unfolding set_by_path
  safe_path_leaves_others allow key parts q qs value obj f s p d =
      ap
        (λ b.
          get_by_path element_key (q ∷ qs)
            (if b then obj else set_parts to_index (key ∷ parts) value obj))
        f
      ∙ set_parts-others allow parts value (get_type value) key q qs obj f s p d
