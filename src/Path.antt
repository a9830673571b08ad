-- ===== src/Path.antt =====
-- Paths into a store (src/utils/path.ts) and the names and paths of a namespace
-- (src/core/store-name.ts). A text is the list of its code points, which the source walks.
pub mod Split
pub mod Cache
pub mod Name
pub mod Tree
pub mod Access
pub mod Written
pub mod Siblings
mod Tests
use stroid.Base.{
  is_nil, ℕ, ◌+◌, Bool, true, false, not, ◌&&◌, ◌||◌, Option, none, some, List, [], ◌∷◌, ◌++◌, ◌==◌,
  if◌then◌else◌, ltb, leb, length,
}

abbrev pub Text : Type 0
Text = List ℕ

abbrev pub dot : ℕ
dot = b'.'

abbrev pub backslash : ℕ
backslash = 92

abbrev pub colon : ℕ
colon = b':'

abbrev pub same_text : Text → Text → Bool
same_text [] [] = true
same_text (c ∷ s) (d ∷ t) = c == d && same_text s t
same_text _ _ = false

-- `path.includes(ch)`
abbrev pub includes : ℕ → Text → Bool
includes ch [] = false
includes ch (c ∷ s) = c == ch || includes ch s

-- The state of the loop in `_splitPath`: the parts pushed so far, the part being read, and whether
-- the last character was an escape.
pub record Splitter : Type 0 where
  pub parts : List Text
  pub current : Text
  pub escaping : Bool

pub split_step : ℕ → Splitter → Splitter
split_step ch s =
    if s.escaping
    then record s { current = s.current ++ ch ∷ []; escaping = false }
    else if ch == backslash
    then record s { escaping = true }
    else if ch == dot
    then record s { parts = s.parts ++ s.current ∷ []; current = [] }
    else record s { current = s.current ++ ch ∷ [] }

pub split_loop : Text → Splitter → Splitter
split_loop [] s = s
split_loop (ch ∷ path) s = split_loop path (split_step ch s)

pub split_end : Splitter → List Text
split_end s =
    let last = if s.escaping then s.current ++ backslash ∷ [] else s.current in s.parts ++ last ∷ []

pub split_path : Text → List Text
split_path path =
    split_end (split_loop path (record { parts = []; current = []; escaping = false }))

-- What `parsePath` computes for a text that is not in its cache.
pub parse_text : Text → List Text
parse_text path =
    if not (includes dot path) && not (includes backslash path) then path ∷ [] else split_path path

abbrev pub path_parse_cache_max : ℕ
path_parse_cache_max = 1024

abbrev pub PathCache : Type 0
PathCache = List (Text × List Text)

abbrev pub cached : Text → PathCache → Option (List Text)
cached path [] = none
cached path ((p, parts) ∷ cache) = if same_text p path then some parts else cached path cache

-- Room for one more path: the oldest one goes, but not the empty text, which is falsy.
abbrev make_room : PathCache → PathCache
make_room [] = []
make_room ((oldest, parts) ∷ cache) =
    if leb path_parse_cache_max (length ((oldest, parts) ∷ cache)) && not (is_nil oldest)
    then cache
    else (oldest, parts) ∷ cache

abbrev parse_cached : Option (List Text) → Text → PathCache → List Text × PathCache
parse_cached (some parts) path cache = (parts, cache)
parse_cached none path cache = (parse_text path, make_room cache ++ (path, parse_text path) ∷ [])

pub parse_path : Text → PathCache → List Text × PathCache
parse_path path cache = parse_cached (cached path cache) path cache

abbrev pub max_depth : ℕ
max_depth = 10

-- `validateDepth`, without its warning from five segments on.
pub validate_depth : List Text → Bool
validate_depth parts = not (ltb max_depth (length parts))

-- `segment.replace(/\\/g, "\\\\")`
double_backslashes : Text → Text
double_backslashes [] = []
double_backslashes (c ∷ s) =
    let rest = double_backslashes s in
    if c == backslash then backslash ∷ backslash ∷ rest else c ∷ rest

-- `.replace(/\./g, "\\.")`
escape_dots : Text → Text
escape_dots [] = []
escape_dots (c ∷ s) =
    let rest = escape_dots s in if c == dot then backslash ∷ dot ∷ rest else c ∷ rest

pub escape_path_segment : Text → Text
unfolding double_backslashes escape_dots
escape_path_segment segment = escape_dots (double_backslashes segment)

-- `path.map(…).join(".")`
pub normalize_path : List Text → Text
normalize_path [] = []
normalize_path (segment ∷ []) = escape_path_segment segment
normalize_path (segment ∷ next ∷ rest) =
    escape_path_segment segment ++ dot ∷ normalize_path (next ∷ rest)

-- `name.includes("::")`
pub is_qualified : Text → Bool
is_qualified [] = false
is_qualified (c ∷ []) = false
is_qualified (c ∷ d ∷ s) = c == colon && d == colon || is_qualified (d ∷ s)

-- `qualify` of a namespace handle.
pub qualify : Text → Text → Text
qualify ns name = if is_qualified name then name else ns ++ colon ∷ colon ∷ name
