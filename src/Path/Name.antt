-- ===== src/Path/Name.antt =====
-- Names qualified by a namespace.
use stroid.Base.{
  ap, ◌==◌, ==_iff, ◌&&◌, true, [], ◌∷◌, ◌++◌, ◌≡◌, refl, arith, Bool-cases, inl, inr,
}
use stroid.Path.{Text, colon, is_qualified, qualify}

is_qualified-append : (ns name : Text) → is_qualified (ns ++ colon ∷ colon ∷ name) ≡ true
unfolding is_qualified
is_qualified-append [] name = refl
is_qualified-append (c ∷ []) name = ground arith
is_qualified-append (c ∷ d ∷ ns) name = ground (arith, is_qualified-append (d ∷ ns) name)

-- The text has two colons in a row.
abbrev pub HasColons : Text → Type 0
HasColons s = (before : Text) × (after : Text) × (s ≡ before ++ colon ∷ colon ∷ after)

qualified-HasColons : (s : Text) → is_qualified s ≡ true → HasColons s
unfolding is_qualified
qualified-HasColons [] h = ground (arith, h)
qualified-HasColons (c ∷ []) h = ground (arith, h)
qualified-HasColons (c ∷ d ∷ s) h = elim (Bool-cases (c == colon && d == colon)) [
  | inl y ↦
      let first : c ≡ colon = (==_iff c colon).0 (ground (arith, y)) in
      let second : d ≡ colon = (==_iff d colon).0 (ground (arith, y)) in
      ([], s, rw (first, second) refl)
  | inr n ↦
      let (before, after, e) = qualified-HasColons (d ∷ s) (ground (arith, h, n)) in
      (c ∷ before, after, ap (λ t. c ∷ t) e)
]

-- Every name that a namespace makes has two colons in a row, and what one namespace has made of a
-- name is left alone by every namespace: a handle of a store stays good in all of them.
pub qualify-qualify :
    (outer inner name : Text)
    → HasColons (qualify inner name) × (qualify outer (qualify inner name) ≡ qualify inner name)
unfolding qualify
qualify-qualify outer inner name = elim (Bool-cases (is_qualified name)) [
  | inl done ↦ rw (done, done) (qualified-HasColons name done, refl)
  | inr plain ↦ rw (plain, is_qualified-append inner name) ((inner, name, refl), refl)
]
