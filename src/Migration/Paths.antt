-- ===== src/Migration/Paths.antt =====
-- migration.py: `relative_path`, `related_paths` and `unique_paths`. What Unicode says of a text (its
-- normal form, its folding, its capitals) is an argument.
use trace_gate_framework.Prelude.{
  ℕ, option_Eq, nat_Eq, list_Eq, Bool, true, false, not, ◌&&◌, ◌||◌, ◌==◌, Option, none, some, List,
  [], ◌∷◌, ◌++◌, map, if◌then◌else◌, ltb, any, all, contains, is_empty, head?, last?, Result, ok,
  ◌>>=◌, ◌>>◌,
}
use trace_gate_framework.Migration.{Text, require}

pub record Unicode : Type 0 where
  -- `unicodedata.normalize("NFC", text)`
  pub normalize : Text → Text
  pub casefold : Text → Text
  pub upper : Text → Text

abbrev pub slash : ℕ
slash = 47

abbrev pub dot : ℕ
dot = 46

abbrev pub backslash : ℕ
backslash = 92

abbrev pub colon : ℕ
colon = 58

abbrev space : ℕ
space = 32

abbrev pub onto : ℕ → List Text → List Text
onto c [] = (c ∷ []) ∷ []
onto c (part ∷ parts) = (c ∷ part) ∷ parts

-- `text.split(separator)`
unfoldable pub split : ℕ → Text → List Text
split separator [] = [] ∷ []
split separator (c ∷ text) =
    let parts = split separator text in if c == separator then [] ∷ parts else onto c parts

-- `separator.join(parts)`
unfoldable pub join_parts : ℕ → List Text → Text
join_parts separator [] = []
join_parts separator (part ∷ []) = part
join_parts separator (part ∷ next ∷ parts) = part ++ separator ∷ join_parts separator (next ∷ parts)

abbrev pub is_control : ℕ → Bool
is_control c = ltb c 32 || (c == 127)

abbrev pub starts_with : ℕ → Text → Bool
starts_with c text = head? text == some c

abbrev ends_with : ℕ → Text → Bool
ends_with c text = last? text == some c

abbrev pub is_plain : Text → Bool
is_plain part =
    not (contains part ([] ∷ (dot ∷ []) ∷ (dot ∷ dot ∷ []) ∷ []))
    && not (ends_with dot part || ends_with space part)

-- CON, PRN, AUX and NUL
abbrev devices : List Text
devices = (67 ∷ 79 ∷ 78 ∷ []) ∷ (80 ∷ 82 ∷ 78 ∷ []) ∷ (65 ∷ 85 ∷ 88 ∷ []) ∷ (78 ∷ 85 ∷ 76 ∷ []) ∷ []

-- The digits from 1 to 9.
abbrev digits : List ℕ
digits = 49 ∷ 50 ∷ 51 ∷ 52 ∷ 53 ∷ 54 ∷ 55 ∷ 56 ∷ 57 ∷ []

-- A device, COM1 to COM9, or LPT1 to LPT9.
abbrev is_reserved : Text → Bool
is_reserved name =
    contains name devices
    || contains name (map (λ d. 67 ∷ 79 ∷ 77 ∷ d ∷ []) digits)
    || contains name (map (λ d. 76 ∷ 80 ∷ 84 ∷ d ∷ []) digits)

abbrev stem : Text → Text
stem part = elim (head? (split dot part)) [ none ↦ [] | some name ↦ name ]

module _ (unicode : Unicode) where
  -- The value is the path itself.
  unfoldable pub relative_path : Text → Result (Unit {0})
  relative_path value = do
    require (not (is_empty value)) "empty path"
    require (not (any is_control value)) "control character path"
    require
        (not (contains backslash value)
          && not (contains colon value)
          && not (starts_with slash value))
        "absolute, drive or UNC path"
    require (value == unicode.normalize value) "non-NFC path"
    require (all is_plain (split slash value)) "unsafe path component"
    require (all (λ part. not (is_reserved (unicode.upper (stem part)))) (split slash value))
        "reserved path component"

abbrev pub is_named : Text → Bool
is_named part = not (is_empty part || (part == dot ∷ []))

unfoldable pub keep_named : List Text → List Text
keep_named [] = []
keep_named (part ∷ parts) =
    let rest = keep_named parts in if is_named part then part ∷ rest else rest

-- How many slashes a pure path keeps at its front.
abbrev pub root_of : Text → ℕ
root_of (a ∷ b ∷ c ∷ text) =
    if a == slash then (if (b == slash) && not (c == slash) then 2 else 1) else 0
root_of (a ∷ b ∷ []) = if a == slash then (if b == slash then 2 else 1) else 0
root_of (a ∷ []) = if a == slash then 1 else 0
root_of [] = 0

-- `PurePosixPath`
pub record PurePath : Type 0 where
  pub root : ℕ
  pub parts : List Text

abbrev pub pure_path : Text → PurePath
pure_path text = record { root = root_of text; parts = keep_named (split slash text) }

unfoldable pub is_front : List Text → List Text → Bool
is_front [] ys = true
is_front (x ∷ xs) [] = false
is_front (x ∷ xs) (y ∷ ys) = (x == y) && is_front xs ys

-- `x == y or x in y.parents`
abbrev pub is_within : PurePath → PurePath → Bool
is_within x y = (x.root == y.root) && is_front x.parts y.parts

unfoldable pub related_paths : Text → Text → Bool
related_paths a b = is_within (pure_path a) (pure_path b) || is_within (pure_path b) (pure_path a)

-- `"/".join_parts(parts[:end])` for `end` from 1.
unfoldable pub fronts : Text → List Text → List Text
fronts before [] = []
fronts before (part ∷ parts) = (before ++ part) ∷ fronts (before ++ part ++ slash ∷ []) parts

abbrev pub Aliases : Type 0
Aliases = List (Text × Text)

unfoldable pub alias_of : Text → Aliases → Option Text
alias_of key [] = none
alias_of key ((k, v) ∷ aliases) = if k == key then some v else alias_of key aliases

abbrev pub spelled_alike : Text → Option Text → Bool
spelled_alike prefix none = true
spelled_alike prefix (some other) = other == prefix

-- The inner loop: the key of every prefix of a path.
unfoldable pub add_aliases : (Text → Text) → List Text → Aliases → Result Aliases
add_aliases casefold [] aliases = ok aliases
add_aliases casefold (prefix ∷ prefixes) aliases = do
  require (spelled_alike prefix (alias_of (casefold prefix) aliases))
      "Unicode or case path collision"
  add_aliases casefold prefixes ((casefold prefix, prefix) ∷ aliases)

module _ (unicode : Unicode) where
  unfoldable pub check_paths : List Text → List Text → Aliases → Result (Unit {0})
  unfolding relative_path add_aliases
  check_paths [] explicit aliases = ok tt
  check_paths (path ∷ paths) explicit aliases = do
    relative_path unicode path
    require (not (contains path explicit)) "duplicate path"
    aliases ← add_aliases unicode.casefold (fronts [] (split slash path)) aliases
    check_paths paths (path ∷ explicit) aliases

  unfoldable pub unique_paths : List Text → Result (Unit {0})
  unfolding check_paths
  unique_paths paths = check_paths paths [] []
