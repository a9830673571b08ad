-- ===== src/Path/Split.antt =====
-- A path that a namespace writes for a list of segments is read back as that list.
use stroid.Base.{
  ℕ, false, List, [], ◌∷◌, ◌++◌, ◌==◌, if◌then◌else◌, ◌≡◌, ◌≢◌, refl, ap, ◌∙◌, sym, arith,
  Bool-cases, ==_iff, inl, inr,
}
use mathlib.Core.List.{append_assoc, append-nil}
use stroid.Path.{
  Text, dot, backslash, includes, Splitter, split_step, split_loop, split_end, split_path,
  parse_text, escape_path_segment, normalize_path,
}

split_loop-append :
    (s t : Text) (st : Splitter) → split_loop (s ++ t) st ≡ split_loop t (split_loop s st)
unfolding split_loop
split_loop-append [] t st = refl
split_loop-append (c ∷ s) t st = split_loop-append s t (split_step c st)

abbrev reading : List Text → Text → Splitter
reading parts current = record { parts = parts; current = current; escaping = false }

escape-cons :
    (c : ℕ) (s : Text)
    → escape_path_segment (c ∷ s) ≡ (
        if c == backslash
        then backslash ∷ backslash ∷ escape_path_segment s
        else if c == dot
        then backslash ∷ dot ∷ escape_path_segment s
        else c ∷ escape_path_segment s)
unfolding escape_path_segment
escape-cons c s = elim (Bool-cases (c == backslash)) [ inl slash ↦ rw slash | inr plain ↦ rw plain ]

-- An escaped character is read back as itself, and no escape is pending behind it.
split_loop-escape_one :
    (c : ℕ) (s : Text) (parts : List Text) (current : Text)
    → split_loop (escape_path_segment (c ∷ s)) (reading parts current)
      ≡ split_loop (escape_path_segment s) (reading parts (current ++ c ∷ []))
unfolding split_loop split_step
split_loop-escape_one c s parts current = rw (escape-cons c s) (elim (Bool-cases (c == backslash)) [
  | inl slash ↦ rw (slash, (==_iff c backslash).0 slash)
  | inr plain ↦
      rw plain
        (elim (Bool-cases (c == dot)) [ inl e ↦ rw (e, (==_iff c dot).0 e) | inr e ↦ ground arith ])
])

split_loop-escape_nil :
    (parts : List Text) (current : Text)
    → split_loop (escape_path_segment []) (reading parts current) ≡ reading parts (current ++ [])
unfolding split_loop escape_path_segment
split_loop-escape_nil parts current = ap (reading parts) (sym (append-nil current))

-- A dot that no escape precedes ends the part.
split_loop-dot :
    (path : Text) (parts : List Text) (current : Text)
    → split_loop (dot ∷ path) (reading parts current)
      ≡ split_loop path (reading (parts ++ current ∷ []) [])
unfolding split_loop split_step
split_loop-dot path parts current = refl

split_loop-escape :
    (segment : Text) (parts : List Text) (current : Text)
    → split_loop (escape_path_segment segment) (reading parts current)
      ≡ reading parts (current ++ segment)
split_loop-escape [] parts current = split_loop-escape_nil parts current
split_loop-escape (c ∷ segment) parts current =
    split_loop-escape_one c segment parts current
    ∙ split_loop-escape segment parts (current ++ c ∷ [])
    ∙ ap (reading parts) (append_assoc current (c ∷ []) segment)

split_loop-normalize :
    (segment : Text) (rest : List Text) (parts : List Text)
    → split_end (split_loop (normalize_path (segment ∷ rest)) (reading parts []))
      ≡ parts ++ segment ∷ rest
unfolding normalize_path split_end
split_loop-normalize segment [] parts = rw (split_loop-escape segment parts [])
split_loop-normalize segment (next ∷ rest) parts =
    rw
      (
        split_loop-append (escape_path_segment segment) (dot ∷ normalize_path (next ∷ rest))
            (reading parts []),
        split_loop-escape segment parts [],
        split_loop-dot (normalize_path (next ∷ rest)) parts segment,
      )
      (split_loop-normalize next rest (parts ++ segment ∷ [])
        ∙ append_assoc parts (segment ∷ []) (next ∷ rest))

split_path-normalize :
    (segment : Text) (rest : List Text)
    → split_path (normalize_path (segment ∷ rest)) ≡ segment ∷ rest
unfolding split_path
split_path-normalize segment rest = split_loop-normalize segment rest []

-- Without a dot or a backslash the loop reads one part, so that the short cut is right.
split_loop_plain :
    (path : Text) (current : Text)
    → includes dot path ≡ false
    → includes backslash path ≡ false
    → split_loop path (reading [] current) ≡ reading [] (current ++ path)
unfolding split_loop split_step
split_loop_plain [] current d b = ap (reading []) (sym (append-nil current))
split_loop_plain (c ∷ path) current d b =
    let rest = split_loop_plain path (current ++ c ∷ []) in
    ground (arith, rest, append_assoc current (c ∷ []) path)

-- The short cut of `parsePath` gives what the loop gives.
pub parse_text_lem : (path : Text) → parse_text path ≡ split_path path
unfolding parse_text split_path split_end
parse_text_lem path = elim (Bool-cases (includes dot path)) [
  | inl dotted ↦ rw dotted
  | inr undotted ↦ elim (Bool-cases (includes backslash path)) [
    | inl slashed ↦ rw (undotted, slashed)
    | inr plain ↦ rw (undotted, plain, split_loop_plain path [] undotted plain)
  ]
]

-- Whatever the segments are, dots and backslashes included, the path that a namespace handle
-- writes for a list of at least one segment is parsed to that list.
pub parse_text-normalize_path :
    (segments : List Text) → segments ≢ [] → parse_text (normalize_path segments) ≡ segments
parse_text-normalize_path [] h = absurd (h refl)
parse_text-normalize_path (segment ∷ rest) h =
    parse_text_lem (normalize_path (segment ∷ rest)) ∙ split_path-normalize segment rest
