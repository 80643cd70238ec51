-- ===== src/Migration/Links.antt =====
-- migration_links.py: `target_path`. The size of a text in UTF-8 is an argument, and the call has no
-- `check_directory`.
use trace_gate_framework.Prelude.{
  ℕ, option_Eq, nat_Eq, list_Eq, not, ◌&&◌, ◌==◌, List, [], ◌∷◌, ◌++◌, if◌then◌else◌, leb, any,
  contains, is_empty, Result, ok, ◌>>=◌, ◌>>◌,
}
use trace_gate_framework.Migration.{Text, require}
use trace_gate_framework.Migration.Paths.{
  Unicode, slash, dot, backslash, colon, is_control, starts_with, split, join_parts, relative_path,
}

-- `parts[:-1]`
unfoldable pub but_last_part : List Text → List Text
but_last_part [] = []
but_last_part (x ∷ []) = []
but_last_part (x ∷ y ∷ xs) = x ∷ but_last_part (y ∷ xs)

-- What a component does to the place.
unfoldable pub step_to : List Text → Text → Result (List Text)
step_to parts part =
    if part == dot ∷ []
    then ok parts
    else if part == dot ∷ dot ∷ []
    then (do require (not (is_empty parts)) "link target escapes root"; ok (but_last_part parts))
    else ok (parts ++ part ∷ [])

module _ (directories links : List Text) where
  -- The place where a component is read is a directory and no link.
  unfoldable pub check_place : List Text → Result (Unit {0})
  check_place parts = do
    require (not (contains (join_parts slash parts) links))
        "raw intermediate symlink target unsupported"
    require (contains (join_parts slash parts) directories)
        "raw target traverses missing/non-directory component"

  -- The loop over the components of the target.
  unfoldable pub follow : List Text → List Text → Result (List Text)
  unfolding check_place step_to
  follow parts [] = ok parts
  follow parts (part ∷ target) = do
    require (not (is_empty part)) "empty link target component"
    check_place parts
    next ← step_to parts part
    follow next target

  unfoldable pub target_path : Unicode → (Text → ℕ) → Text → Text → Result Text
  unfolding follow
  target_path unicode encoded_size path target = do
    relative_path unicode path
    require (leb (encoded_size path) 512 && leb (encoded_size target) 1024)
        "link descriptor path bound"
    require
        (not (is_empty target)
          && not (starts_with slash target)
          && not (contains backslash target)
          && not (contains colon target))
        "absolute/drive/UNC link target"
    require ((target == unicode.normalize target) && not (any is_control target))
        "unsafe Unicode/control link target"
    parts ← follow (but_last_part (split slash path)) (split slash target)
    relative_path unicode (join_parts slash parts)
    ok (join_parts slash parts)
