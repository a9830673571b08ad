-- ===== src/Path/Cache.antt =====
-- The cache of parsed paths never changes an answer, and stays bounded unless it has the empty path.
use stroid.Base.{
  Bool, false, not, ◌&&◌, is_nil, ◌≤◌, true, some, List, [], ◌∷◌, ◌++◌, ◌==◌, ==_iff, ◌≡◌, refl,
  arith, ap₂, Option-cases, Bool-cases, inl, inr, length, length-append, All, leb, &&-eq-true, suc,
}
use stroid.Path.{
  Text, same_text, PathCache, cached, parse_path, parse_text, path_parse_cache_max, make_room,
}

same_text-eq : (s t : Text) → same_text s t ≡ true → s ≡ t
same_text-eq [] [] h = refl
same_text-eq (c ∷ s) (d ∷ t) h =
    let (head, tail) = &&-eq-true (c == d) (same_text s t) h in
    ap₂ ◌∷◌ ((==_iff c d).0 head) (same_text-eq s t tail)
same_text-eq [] (d ∷ t) h = cc
same_text-eq (c ∷ s) [] h = cc

abbrev IsParsed : Text × List Text → Type 0
IsParsed (path, parts) = parts ≡ parse_text path

-- The path is not the empty text.
abbrev pub IsNamed : Text × List Text → Type 0
IsNamed (path, parts) = is_nil path ≡ false

-- Each path in the cache stands with its own parse. There is a bounded number of them, unless one of
-- them is the empty path.
pub record IsSound (cache : PathCache) : Type 0 where
  pub parsed : All IsParsed cache
  pub bounded : All IsNamed cache → length cache ≤ path_parse_cache_max

cached-eq :
    (path : Text) (cache : PathCache) {parts : List Text}
    → All IsParsed cache
    → cached path cache ≡ some parts
    → parts ≡ parse_text path
cached-eq path [] h e = cc
cached-eq path ((p, ps) ∷ cache) h e = elim (Bool-cases (same_text p path)) [
  | inl same ↦ ground (arith, h.0, same_text-eq p path same)
  | inr other ↦ cached-eq path cache h.1 (rw other at e)
]

All-append :
    (P : Text × List Text → Type 0) (xs ys : PathCache) → All P xs → All P ys → All P (xs ++ ys)
All-append P [] ys hx hy = hy
All-append P (x ∷ xs) ys hx hy = (hx.0, All-append P xs ys hx.1 hy)

All-start : (P : Text × List Text → Type 0) (xs ys : PathCache) → All P (xs ++ ys) → All P xs
All-start P [] ys h = tt
All-start P (x ∷ xs) ys h = (h.0, All-start P xs ys h.1)

-- What `make_room` does with the cache `(p, ps) ∷ cache`.
abbrev is_full : Text → List Text → PathCache → Bool
is_full p ps cache = leb path_parse_cache_max (length ((p, ps) ∷ cache)) && not (is_nil p)

make_room-All : (cache : PathCache) → All IsParsed cache → All IsParsed (make_room cache)
make_room-All [] h = h
make_room-All ((p, ps) ∷ cache) h = elim (Bool-cases (is_full p ps cache)) [
  | inl full ↦ rw full h.1
  | inr space ↦ rw space h
]

-- What is evicted is not the empty path.
IsNamed-make_room : (cache : PathCache) → All IsNamed (make_room cache) → All IsNamed cache
IsNamed-make_room [] h = h
IsNamed-make_room ((p, ps) ∷ cache) h = elim (Bool-cases (is_full p ps cache)) [
  | inl full ↦ (ground (arith, full), rw full at h)
  | inr space ↦ rw space at h
]

length-make_room :
    (cache : PathCache)
    → All IsNamed cache
    → length cache ≤ path_parse_cache_max
    → suc (length (make_room cache)) ≤ path_parse_cache_max
length-make_room [] n h = omega arith
length-make_room ((p, ps) ∷ cache) n h = elim (Bool-cases (is_full p ps cache)) [
  | inl full ↦ rw full (omega (arith, h))
  | inr space ↦ rw space (ground (arith, space, h, n.0))
]

stored-bounded :
    (path : Text) (cache : PathCache)
    → IsSound cache
    → All IsNamed (make_room cache ++ (path, parse_text path) ∷ [])
    → length (make_room cache ++ (path, parse_text path) ∷ []) ≤ path_parse_cache_max
stored-bounded path cache h n =
    let named =
      IsNamed-make_room cache
        (All-start IsNamed (make_room cache) ((path, parse_text path) ∷ []) n) in
    omega (
      arith,
      length-append (make_room cache) ((path, parse_text path) ∷ []),
      length-make_room cache named (h.bounded named),
    )

-- From a sound cache, such as the empty one, `parsePath` answers what it would compute afresh, and
-- leaves a sound cache: the answer does not depend on what was parsed before, and the cache has at
-- most its bound of paths while the empty path is not one of them.
pub parse_path-IsSound :
    (path : Text) (cache : PathCache)
    → IsSound cache
    → ((parse_path path cache).0 ≡ parse_text path) × IsSound (parse_path path cache).1
unfolding parse_path
parse_path-IsSound path cache h = elim (Option-cases (cached path cache)) [
  | inl fresh ↦ rw fresh (
    refl,
    record {
      parsed =
          All-append IsParsed (make_room cache) ((path, parse_text path) ∷ [])
            (make_room-All cache h.parsed) (refl, tt);
      bounded = stored-bounded path cache h;
    },
  )
  | inr (parts, e) ↦ rw e (cached-eq path cache h.parsed e, h)
]
