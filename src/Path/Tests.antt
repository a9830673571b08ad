-- ===== src/Path/Tests.antt =====
-- Runs of the parser of paths and of the names of a namespace.
use stroid.Base.{
  ℕ, String, false, Option, none, some, List, [], ◌∷◌, ◌≡◌, ◌≢◌, refl, arith, ◌===◌, ===_iff,
  if◌then◌else◌, Bool-cases, inl, inr,
}
use stroid.Path.{Text, dot, backslash, parse_text, normalize_path, parse_path, qualify}
use stroid.Path.Split.{parse_text-normalize_path}
use stroid.Path.Cache.{IsSound, parse_path-IsSound}
use stroid.Path.Name.{HasColons, qualify-qualify}
use stroid.Path.Tree.{Json, primitive, number, array, object, nil, cons, end, field}
use stroid.Path.Access.{Index, place, not_integer, get_by_path, set_by_path, is_safe}
use stroid.Path.Written.{IsPlain, safe_path_reads_back}
use stroid.Path.Siblings.{IsInjective, safe_path_leaves_others}

-- `a.b`, with the dot for a separator
abbrev dotted : Text
dotted = b'a' ∷ dot ∷ b'b' ∷ []

-- The segments `a.\` and `b`
abbrev segments : List Text
segments = (b'a' ∷ dot ∷ backslash ∷ []) ∷ (b'b' ∷ []) ∷ []

segments_are_some : segments ≢ []
segments_are_some e = ground (arith, e)

parse_text-normalize_path_example : parse_text (normalize_path segments) ≡ segments
parse_text-normalize_path_example = parse_text-normalize_path segments segments_are_some

empty-IsSound : IsSound []
empty-IsSound = record { parsed = tt; bounded = λ n. omega arith }

parse_path-IsSound_example :
    ((parse_path dotted []).0 ≡ parse_text dotted) × IsSound (parse_path dotted []).1
parse_path-IsSound_example = parse_path-IsSound dotted [] empty-IsSound

abbrev outer : Text
outer = b'o' ∷ []

abbrev inner : Text
inner = b'i' ∷ []

qualify-qualify_example :
    HasColons (qualify inner dotted) × (qualify outer (qualify inner dotted) ≡ qualify inner dotted)
qualify-qualify_example = qualify-qualify outer inner dotted

-- Plain digits are indices, and read the element.
abbrev to_index : String → Index
to_index key = if key === "0" then place 0 else if key === "1" then place 1 else not_integer

abbrev element_key : String → Option ℕ
element_key key = if key === "0" then some 0 else if key === "1" then some 1 else none

plain : (key : String) → IsPlain to_index element_key key
plain key i h = elim (Bool-cases (key === "0")) [
  | inl y ↦ ground (arith, y, h)
  | inr n ↦ elim (Bool-cases (key === "1")) [
    | inl y ↦ ground (arith, n, y, h)
    | inr m ↦ ground (arith, n, m, h)
  ]
]

injective : IsInjective element_key
injective j k i h e =
    ground (arith, ===_iff j "0", ===_iff j "1", ===_iff k "0", ===_iff k "1", h, e)

abbrev todo : Json
todo =
    object (field "items" (array (cons (primitive number 1) (cons (primitive number 2) nil))) end)

safe_path_reads_back_example :
    get_by_path element_key
      ("items" ∷ "1" ∷ [])
      (set_by_path to_index ("items" ∷ "1" ∷ []) (primitive number 9) todo)
    ≡ primitive number 9
unfolding is_safe
safe_path_reads_back_example =
    safe_path_reads_back to_index element_key false "items" ("1" ∷ []) (primitive number 9) todo
      refl refl (plain "items", (plain "1", tt))

safe_path_leaves_others_example :
    get_by_path element_key
      ("items" ∷ "0" ∷ [])
      (set_by_path to_index ("items" ∷ "1" ∷ []) (primitive number 9) todo)
    ≡ get_by_path element_key ("items" ∷ "0" ∷ []) todo
unfolding is_safe
safe_path_leaves_others_example =
    safe_path_leaves_others to_index element_key injective false "items" ("1" ∷ []) "items"
      ("0" ∷ []) (primitive number 9) todo refl refl (plain "items", (plain "1", tt))
      (inr (refl, inl (λ e. ground (arith, e, ===_iff "1" "0"))))
