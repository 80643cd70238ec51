-- ===== src/Migration/Targets.antt =====
-- migration_links.py: where an accepted link target leads.
use trace_gate_framework.Prelude.{
  ℕ, option_Eq, nat_Eq, list_Eq, ◌≡◌, sym, subst, true, false, not, ◌&&◌, ◌==◌, List, [], ◌∷◌, ◌++◌,
  if◌then◌else◌, leb, any, contains, is_empty, All, arith, ok, ◌>>◌,
}
use trace_gate_framework.Migration.{Text, require}
use trace_gate_framework.Migration.Checks.{bind_parts, check_parts, require_lem, negated, ok_inj}
use trace_gate_framework.Migration.Paths.{
  Unicode, slash, dot, backslash, colon, is_control, starts_with, split, join_parts, relative_path,
  pure_path,
}
use trace_gate_framework.Migration.Naming.{relative_path_lem}
use trace_gate_framework.Migration.Links.{but_last_part, check_place, step_to, follow, target_path}

-- The place after one component, as the components say it.
abbrev pub place_after : List Text → Text → List Text
place_after parts part =
    if part == dot ∷ []
    then parts
    else if part == dot ∷ dot ∷ []
    then but_last_part parts
    else parts ++ part ∷ []

-- The places where the components of a target are read.
unfoldable pub places : List Text → List Text → List (List Text)
places parts [] = []
places parts (part ∷ target) = parts ∷ places (place_after parts part) target

step_lem :
    (parts : List Text) (part : Text) (next : List Text)
    → step_to parts part ≡ ok next
    → place_after parts part ≡ next
unfolding step_to
step_lem parts part next h = ground arith

module _ (directories links : List Text) where
  -- A declared directory, and no link.
  abbrev pub IsOpen : List Text → Type 0
  IsOpen place =
      (contains (join_parts slash place) directories ≡ true)
      × (contains (join_parts slash place) links ≡ false)

  place_lem : (parts : List Text) → check_place directories links parts ≡ ok tt → IsOpen parts
  unfolding check_place
  place_lem parts h =
      let (free, found) =
        check_parts
          (require (not (contains (join_parts slash parts) links))
            "raw intermediate symlink target unsupported")
          _ tt h in
      (
        require_lem _ _ found,
        negated (contains (join_parts slash parts) links) (require_lem _ _ free),
      )

  follow_lem :
      (parts target after : List Text)
      → follow directories links parts target ≡ ok after
      → All IsOpen (places parts target)
  unfolding follow places
  follow_lem parts [] after h = tt
  follow_lem parts (part ∷ target) after h =
      let (_, h1) =
        check_parts (require (not (is_empty part)) "empty link target component") _ after h in
      let (here, h2) = check_parts (check_place directories links parts) _ after h1 in
      let (next, stepped, h3) =
        bind_parts (step_to parts part) (λ next. follow directories links next target) after h2 in
      (
        place_lem parts here,
        subst (λ t. All IsOpen (places t target)) (sym (step_lem parts part next stepped))
            (follow_lem next target after h3),
      )

  -- An accepted target leads, from the directory of the link, only through declared directories that
  -- are no links, and what it names is a relative path without a component that goes up.
  pub target_path_lem :
      (unicode : Unicode) (encoded_size : Text → ℕ) (path target found : Text)
      → target_path directories links unicode encoded_size path target ≡ ok found
      → All IsOpen (places (but_last_part (split slash path)) (split slash target))
        × ((pure_path found).root ≡ 0)
        × (contains (dot ∷ dot ∷ []) (pure_path found).parts ≡ false)
  unfolding target_path
  target_path_lem unicode encoded_size path target found h =
      let (_, h1) = check_parts (relative_path unicode path) _ found h in
      let (_, h2) =
        check_parts
          (require (leb (encoded_size path) 512 && leb (encoded_size target) 1024)
            "link descriptor path bound")
          _ found h1 in
      let (_, h3) =
        check_parts
          (require
            (not (is_empty target)
              && not (starts_with slash target)
              && not (contains backslash target)
              && not (contains colon target))
            "absolute/drive/UNC link target")
          _ found h2 in
      let (_, h4) =
        check_parts
          (require ((target == unicode.normalize target) && not (any is_control target))
            "unsafe Unicode/control link target")
          _ found h3 in
      let (after, walked, h5) =
        bind_parts
          (follow directories links (but_last_part (split slash path)) (split slash target))
          (λ parts. relative_path unicode (join_parts slash parts) >> ok (join_parts slash parts))
          found h4 in
      let (relative, same) =
        check_parts (relative_path unicode (join_parts slash after)) (ok (join_parts slash after))
          found h5 in
      let (root, up, _) = relative_path_lem unicode found (
        subst (λ t. relative_path unicode t ≡ ok tt) (ok_inj (join_parts slash after) found same)
          relative) in
      (follow_lem (but_last_part (split slash path)) (split slash target) after walked, root, up)
