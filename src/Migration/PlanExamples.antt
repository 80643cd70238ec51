-- ===== src/Migration/PlanExamples.antt =====
-- migration.py: paths and parents at concrete inputs. Every text is its own normal form here.
use trace_gate_framework.Prelude.{
  ◌⊎◌, ◌<◌, length, arith, true, value_error, err, All, false, ℕ, String, string_Eq, nat_Eq,
  option_Eq, list_Eq, ◌≡◌, inl, inr, refl, List, [], ◌∷◌, contains, any, all, Among, ok,
}
use trace_gate_framework.Prelude.Dict.{Dict, keys}
use trace_gate_framework.Migration.{Text, phase_Eq, plan_Eq, evidence_Eq, transaction_Eq}
use trace_gate_framework.Migration.Paths.{
  Unicode, slash, split, join_parts, relative_path, pure_path, fronts, alias_of, add_aliases,
  check_paths, unique_paths,
}
use trace_gate_framework.Migration.Naming.{relative_path_lem}
use trace_gate_framework.Migration.Spelling.{path_fronts, one_spelling}
use trace_gate_framework.Migration.Plans.{check_parents}
use trace_gate_framework.Migration.Walk.{IsOrdered, Cycle, check_parents_decided}
use trace_gate_framework.Migration.Links.{but_last_part, check_place, step_to, follow, target_path}
use trace_gate_framework.Migration.Targets.{places, IsOpen, target_path_lem}

abbrev plain : Unicode
plain = record { normalize = λ t. t; casefold = λ t. t; upper = λ t. t }

-- The path a/b.
abbrev nested : Text
nested = 97 ∷ 47 ∷ 98 ∷ []

nested_accepted : relative_path plain nested ≡ ok tt
unfolding relative_path split any all contains
nested_accepted = refl

relative_path_lem_example :
    ((pure_path nested).root ≡ 0)
    × (contains (46 ∷ 46 ∷ []) (pure_path nested).parts ≡ false)
    × (join_parts slash (pure_path nested).parts ≡ nested)
relative_path_lem_example = relative_path_lem plain nested nested_accepted

-- The paths a/b and a/c, and the directory of both.
abbrev other : Text
other = 97 ∷ 47 ∷ 99 ∷ []

both_accepted : unique_paths plain (nested ∷ other ∷ []) ≡ ok tt
unfolding unique_paths check_paths relative_path split any all contains fronts add_aliases alias_of
both_accepted = refl

directory-Among : Among (97 ∷ []) (path_fronts nested)
unfolding fronts split
directory-Among = inl refl

directory-Among-other : Among (97 ∷ []) (path_fronts other)
unfolding fronts split
directory-Among-other = inl refl

abbrev directory : Text
directory = 97 ∷ []

one_spelling_example : directory ≡ directory
one_spelling_example =
    one_spelling plain (nested ∷ other ∷ []) nested other directory directory both_accepted
      (inl refl) (inr (inl refl)) directory-Among directory-Among-other refl

-- An artifact with a parent that is migrated and one that is not.
abbrev family : Dict (List String)
family = ("a", "b" ∷ "x" ∷ []) ∷ ("b", []) ∷ []

family_small : length family < 1000
family_small = omega arith

check_parents_decided_example :
    ((done : List String) × (check_parents 1000 family ≡ ok done)
      × IsOrdered family done
      × All (λ x. contains x done ≡ true) (keys family))
    ⊎ ((check_parents 1000 family ≡ err (value_error "artifact parent cycle")) × Cycle family)
check_parents_decided_example = check_parents_decided 1000 family family_small

-- The link a/l, whose text is ../b/c.
abbrev link : Text
link = 97 ∷ 47 ∷ 108 ∷ []

abbrev link_text : Text
link_text = 46 ∷ 46 ∷ 47 ∷ 98 ∷ 47 ∷ 99 ∷ []

abbrev named : Text
named = 98 ∷ 47 ∷ 99 ∷ []

abbrev directories : List Text
directories = [] ∷ (97 ∷ []) ∷ (98 ∷ []) ∷ []

abbrev links : List Text
links = link ∷ []

abbrev measure : Text → ℕ
measure text = 6

link_accepted : target_path directories links plain measure link link_text ≡ ok named
unfolding target_path relative_path split any all contains follow check_place step_to but_last_part
    join_parts
link_accepted = refl

target_path_lem_example :
    All
      (IsOpen directories links)
      (places (but_last_part (split slash link)) (split slash link_text))
    × ((pure_path named).root ≡ 0)
    × (contains (46 ∷ 46 ∷ []) (pure_path named).parts ≡ false)
target_path_lem_example =
    target_path_lem directories links plain measure link link_text named link_accepted
